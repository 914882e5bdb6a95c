-- ===== src/Transport/Memory.antt =====
-- A lawful peer in memory: what stands at each path, the rest of the file that is being read, and
-- the number of changes after which every further change fails.
use kitchensync.Base.{
  ℕ, zero, suc, ◌≡◌, refl, Text, text_eq, text_eq_iff, true, false, Option, none, some, List, [],
  ◌∷◌, ◌++◌, Result, ok, err, is_ok, pos, arith, if◌then◌else◌,
}
use kitchensync.Transport.Types.{
  ConnectedPeerRoot, PeerMetadata, PeerReadChunk, bytes, eof, PeerTransportError, not_found,
  io_error,
}
use kitchensync.Transport.Surface.{
  PeerTransportSurface, Answer, Node, file, directory, apart, IsLawful,
}

pub record Disk : Type 0 where
  pub at : Text → Option Node
  pub cursor : List ℕ
  pub budget : ℕ

abbrev pub put : Text → Option Node → (Text → Option Node) → Text → Option Node
put p node at q = if text_eq p q then node else at q

-- A change, while the budget lasts
abbrev change : {A : Type 0} → (Disk → Answer Disk A) → Disk → Answer Disk A
change f d = elim d.budget [ zero ↦ (err io_error, d) | suc left ↦ f (record d { budget = left }) ]

abbrev metadata : Node → PeerMetadata
metadata (file content) = record { is_dir = false; mod_time = 0; byte_size = pos 0 }
metadata directory = record { is_dir = true; mod_time = 0; byte_size = pos 0 }

abbrev stat_node : Option Node → Result PeerMetadata PeerTransportError
stat_node none = err not_found
stat_node (some node) = ok (metadata node)

abbrev content_of : Option Node → List ℕ
content_of (some (file content)) = content
content_of _ = []

abbrev open_node : Text → Option Node → Disk → Answer Disk Text
open_node p (some (file content)) d = (ok p, record d { cursor = content })
open_node p _ d = (err not_found, d)

abbrev next_chunk : List ℕ → PeerReadChunk
next_chunk [] = eof
next_chunk (b ∷ more) = bytes (b ∷ more)

abbrev move_node : Text → Text → Option Node → Option Node → Disk → Answer Disk (Unit {0})
move_node p q (some node) none d = (ok tt, record d { at = put p none (put q (some node) d.at) })
move_node p q _ _ d = (err io_error, d)

abbrev remove_node : Text → Option Node → Disk → Answer Disk (Unit {0})
remove_node p (some (file content)) d = (ok tt, record d { at = put p none d.at })
remove_node p _ d = (err not_found, d)

abbrev pub memory : PeerTransportSurface
memory = record {
  State = Disk;
  PeerReadHandle = Text;
  PeerWriteHandle = Text;
  list_dir = λ r p d. (ok [], d);
  stat = λ r p d. (stat_node (d.at p), d);
  open_read = λ r p d. open_node p (d.at p) d;
  read = λ h n d. (ok (next_chunk d.cursor), record d { cursor = [] });
  close_read = λ h d. (ok tt, d);
  open_write = λ r p. change λ d. (ok p, record d { at = put p (some (file [])) d.at });
  write = λ h more.
      change λ d. (ok tt, record d { at = put h (some (file (content_of (d.at h) ++ more))) d.at });
  close_write = λ h. change λ d. (ok tt, d);
  rename = λ r p q. change λ d. move_node p q (d.at p) (d.at q) d;
  delete_file = λ r p. change λ d. remove_node p (d.at p) d;
  create_dir = λ r p. change λ d. (ok tt, record d { at = put p (some directory) d.at });
  delete_dir = λ r p. change λ d. (ok tt, record d { at = put p none d.at });
  set_mod_time = λ r p t. change λ d. (ok tt, d);
}

apart-ne : (p q : Text) → apart p q ≡ true → text_eq p q ≡ false
unfolding apart
apart-ne p q h = ground (arith, h)

text_eq_same : (p : Text) → text_eq p p ≡ true
text_eq_same p = (text_eq_iff p p).1 refl

module _ (root : ConnectedPeerRoot) where
  node-rename :
      (p q x : Text) (d : Disk)
      → apart p x ≡ true
      → apart q x ≡ true
      → (memory.rename root p q d).1.at x ≡ d.at x
  node-rename p q x d a b = ground (arith, apart-ne p x a, apart-ne q x b)

  rename-ok :
      (p q : Text) (d : Disk)
      → is_ok (memory.rename root p q d).0 ≡ true
      → ((memory.rename root p q d).1.at q ≡ d.at p) × ((memory.rename root p q d).1.at p ≡ none)
  rename-ok p q d h = ground (arith, h, text_eq_same p, text_eq_same q, text_eq_iff p q)

  delete_file-ok :
      (p : Text) (d : Disk)
      → is_ok (memory.delete_file root p d).0 ≡ true
      → (memory.delete_file root p d).1.at p ≡ none
  delete_file-ok p d h = ground (arith, h, text_eq_same p)

  node-open_read :
      (source : ConnectedPeerRoot) (p q : Text) (d : Disk)
      → (memory.open_read source p d).1.at q ≡ d.at q
  node-open_read source p q d = ground arith

  pub memory-IsLawful : IsLawful memory root
  memory-IsLawful = record {
    node = λ d p. d.at p;
    writes_to = λ h. h;
    node-stat = λ p q d. refl;
    stat-ok = λ p d m h. ground (arith, h);
    stat-not_found = λ p d h. ground (arith, h);
    node-open_write = λ p q d a. ground (arith, apart-ne p q a);
    open_write-ok = λ p d h e. ground (arith, e, text_eq_same p);
    node-write = λ h more q d a. ground (arith, apart-ne h q a);
    write-ok = λ h more before d start e. ground (arith, start, e, text_eq_same h);
    node-close_write = λ h q d a. ground arith;
    close_write-ok = λ h d e. ground (arith, e);
    node-rename = node-rename;
    rename-ok = rename-ok;
    rename-err = λ p q x d e. ground (arith, e);
    node-delete_file = λ p x d a. ground (arith, apart-ne p x a);
    delete_file-ok = delete_file-ok;
    delete_file-not_found = λ p d e. ground (arith, e);
    delete_file-err = λ p x d e. ground (arith, e);
    node-open_read = node-open_read;
    node-read = λ h n q d. refl;
    node-close_read = λ h q d. refl;
    node-set_mod_time = λ p q time d. ground arith;
    node-create_dir = λ p q d a. ground (arith, apart-ne p q a);
    node-delete_dir = λ p q d e. ground (arith, e);
  }

  pub node-memory : (d : Disk) (p : Text) → memory-IsLawful.node d p ≡ d.at p
  unfolding memory-IsLawful
  node-memory d p = refl
