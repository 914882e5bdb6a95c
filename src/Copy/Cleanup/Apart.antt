-- ===== src/Copy/Cleanup/Apart.antt =====
-- A path that lies apart from a directory lies apart from all that is below the directory.
use kitchensync.Base.{
  or_right, or_cases, ◌≡◌, ◌⊎◌, inl, inr, refl, sym, ap, subst, ◌∙◌, codes, Text, text_eq,
  text_eq_iff, starts_with, Bool, true, false, ◌&&◌, not, [], ◌∷◌, ◌++◌, append_assoc, both_false,
  arith, ◌≢◌,
}
use kitchensync.Transport.Surface.{within, apart}
use kitchensync.Copy.Cleanup.{join_child}

starts_with-prefix : (a b t : Text) → starts_with (a ++ b) t ≡ true → starts_with a t ≡ true
unfolding starts_with
starts_with-prefix [] b t h = refl
starts_with-prefix (x ∷ a) b [] h = absurd (cc h)
starts_with-prefix (x ∷ a) b (y ∷ t) h = ground (arith, h, starts_with-prefix a b t)

starts_with_self : (a b : Text) → starts_with a (a ++ b) ≡ true
unfolding starts_with
starts_with_self [] b = refl
starts_with_self (x ∷ a) b = ground (arith, starts_with_self a b)

-- Of two beginnings of one text, one begins the other.
starts_with-comparable :
    (a b t : Text)
    → starts_with a t ≡ true
    → starts_with b t ≡ true
    → (starts_with a b ≡ true) ⊎ (starts_with b a ≡ true)
unfolding starts_with
starts_with-comparable [] b t h k = inl refl
starts_with-comparable (x ∷ a) [] t h k = inr refl
starts_with-comparable (x ∷ a) (y ∷ b) [] h k = absurd (cc h)
starts_with-comparable (x ∷ a) (y ∷ b) (z ∷ t) h k =
    ground (arith, h, k, starts_with-comparable a b t)

-- A directory that begins another is the same or holds it.
starts_with-within :
    (q p : Text) → starts_with (q ++ codes "/") (p ++ codes "/") ≡ true → within q p ≡ true
unfolding starts_with text_eq
starts_with-within [] [] h = refl
starts_with-within [] (y ∷ p) h = ground (arith, h)
starts_with-within (x ∷ []) [] h = ground (arith, h)
starts_with-within (x ∷ z ∷ q) [] h = ground (arith, h)
starts_with-within (x ∷ q) (y ∷ p) h = ground (arith, h, starts_with-within q p)

child-starts : (p c : Text) → starts_with (p ++ codes "/") (p ++ (codes "/" ++ c)) ≡ true
child-starts p c =
    ap (starts_with (p ++ codes "/")) (sym (append_assoc p (codes "/") c))
    ∙ starts_with_self (p ++ codes "/") c

same_child : (p c q : Text) → p ++ (codes "/" ++ c) ≡ q → within p q ≡ true
same_child p c q e =
    or_right (text_eq p q) _
      (subst (λ t. starts_with (p ++ codes "/") t ≡ true) e (child-starts p c))

within-child : (p c q : Text) → within (p ++ (codes "/" ++ c)) q ≡ true → within p q ≡ true
within-child p c q h = elim (or_cases (text_eq (p ++ (codes "/" ++ c)) q) _ h) [
  | inl e ↦ same_child p c q ((text_eq_iff (p ++ (codes "/" ++ c)) q).0 e)
  | inr e ↦ or_right (text_eq p q) _ (
      starts_with-prefix (p ++ codes "/") (c ++ codes "/") q
        (subst (λ t. starts_with t q ≡ true) (together p c) e))
]
  where
    together :
        (p c : Text) → (p ++ (codes "/" ++ c)) ++ codes "/" ≡ (p ++ codes "/") ++ (c ++ codes "/")
    together [] c = refl
    together (x ∷ p) c = ap (λ rest. x ∷ rest) (together p c)

child-within :
    (p c q : Text)
    → within q (p ++ (codes "/" ++ c)) ≡ true
    → (within p q ≡ true) ⊎ (within q p ≡ true)
child-within p c q h = elim (or_cases (text_eq q (p ++ (codes "/" ++ c))) _ h) [
  | inl e ↦ inl (same_child p c q (sym ((text_eq_iff q (p ++ (codes "/" ++ c))).0 e)))
  | inr e ↦
      elim (starts_with-comparable (q ++ codes "/") (p ++ codes "/") (p ++ (codes "/" ++ c)) e
        (child-starts p c)) [
          | inl f ↦ inr (starts_with-within q p f)
          | inr f ↦ inl (starts_with-within p q f)
        ]
]

not_both : (a b : Bool) → not a && not b ≡ true → (a ≡ false) × (b ≡ false)
not_both true b h = absurd (cc h)
not_both false true h = absurd (cc h)
not_both false false h = (refl, refl)

both_not : (a b : Bool) → a ≢ true → b ≢ true → not a && not b ≡ true
both_not true b h k = absurd (h refl)
both_not false true h k = absurd (k refl)
both_not false false h k = refl

pub apart-join_child : (p c q : Text) → p ≢ [] → apart p q ≡ true → apart (join_child p c) q ≡ true
unfolding apart join_child
apart-join_child [] c q some_text h = absurd (some_text refl)
apart-join_child (x ∷ p) c q some_text h =
    let (below, above) = not_both (within (x ∷ p) q) (within q (x ∷ p)) h in
    both_not (within ((x ∷ p) ++ (codes "/" ++ c)) q) (within q ((x ∷ p) ++ (codes "/" ++ c)))
      (λ e. cc (within-child (x ∷ p) c q e, below))
      (λ e. elim (child-within (x ∷ p) c q e) [ inl f ↦ cc (f, below) | inr f ↦ cc (f, above) ])

pub join_child-some : (p c : Text) → p ≢ [] → join_child p c ≢ []
unfolding join_child
join_child-some [] c h = absurd (h refl)
join_child-some (x ∷ p) c h = λ e. cc e

pub apart-not_same : (p q : Text) → apart p q ≡ true → text_eq p q ≡ false
unfolding apart
apart-not_same p q h =
    let (below, above) = not_both (within p q) (within q p) h in
    (both_false (text_eq p q) _ below).0
