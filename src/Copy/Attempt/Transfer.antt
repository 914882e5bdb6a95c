-- ===== src/Copy/Attempt/Transfer.antt =====
-- A copy into SWAP leaves everything but the new file as it is.
use kitchensync.Base.{
  ℕ, zero, suc, ◌≡◌, refl, sym, subst, ◌∙◌, Text, true, false, some, Result, ok, err, map_err,
}
use kitchensync.Format.Types.{FormatRulesTimestamp, FormatRulesUserSwapPaths}
use kitchensync.Transport.Types.{PeerTransportError, PeerReadChunk, bytes, eof}
use kitchensync.Transport.Surface.{PeerTransportSurface, IsLawful, apart}
use kitchensync.Transport.Action.{continue}
use kitchensync.Copy.Types.{CopyStagingCopyRequest, write_swap_new}
use kitchensync.Copy.Attempt.{on_chunk, close_both, copy_opened, open_new}
use kitchensync.Copy.Types.{read_source}
use kitchensync.Copy.Attempt.{
  Stop, failure, Try, at_phase, copy_chunks, transfer, copy_buffer_bytes,
}

module _ (T : PeerTransportSurface) (current_timestamp : T.State → FormatRulesTimestamp × T.State)
    (request : CopyStagingCopyRequest) (law : IsLawful T request.destination_peer.root)
    (clock : (q : Text) (s : T.State) → law.node (current_timestamp s).1 q ≡ law.node s q) where
  -- A step, and then what follows if it succeeds, leave what stands at `q`.
  bind_leaves :
      {A B : Type 0} (q : Text) (s : T.State) (m : T.State → Result A Stop × T.State)
      (f : A → T.State → Result B Stop × T.State)
      → law.node (m s).1 q ≡ law.node s q
      → ((a : A) → (m s).0 ≡ ok a → law.node (f a (m s).1).1 q ≡ law.node (m s).1 q)
      → law.node (continue (m s).0 f (m s).1).1 q ≡ law.node s q
  bind_leaves {A} {B} q s m f h g = go (m s).0 refl
    where
      go : (r : Result A Stop) → (m s).0 ≡ r → law.node (continue r f (m s).1).1 q ≡ law.node s q
      go (ok a) e = g a e ∙ h
      go (err x) e = h

  map_err-ok :
      {A : Type 0} (f : PeerTransportError → Stop) (r : Result A PeerTransportError) (a : A)
      → map_err f r ≡ ok a
      → r ≡ ok a
  map_err-ok f (ok b) a h = cc h
  map_err-ok f (err e) a h = absurd (cc h)

  on_chunk-leaves :
      (write : T.PeerWriteHandle) (rest : Try T current_timestamp (Unit {0})) (q : Text)
      (s : T.State)
      → apart (law.writes_to write) q ≡ true
      → ((t : T.State) → law.node (rest t).1 q ≡ law.node t q)
      → (chunk : PeerReadChunk)
      → law.node (on_chunk T current_timestamp write rest chunk s).1 q ≡ law.node s q
  on_chunk-leaves write rest q s away h eof = refl
  on_chunk-leaves write rest q s away h (bytes buffer) =
      bind_leaves q s (at_phase T current_timestamp write_swap_new false (T.write write buffer))
        (λ _. rest) (law.node-write write buffer q s away) λ a e. h (T.write write buffer s).1

  copy_chunks-leaves :
      (fuel : ℕ) (read : T.PeerReadHandle) (write : T.PeerWriteHandle) (q : Text)
      → apart (law.writes_to write) q ≡ true
      → (s : T.State)
      → law.node (copy_chunks T current_timestamp fuel read write s).1 q ≡ law.node s q
  unfolding copy_chunks
  copy_chunks-leaves zero read write q away s = refl
  copy_chunks-leaves (suc fuel) read write q away s =
      let rest = copy_chunks T current_timestamp fuel read write in
      bind_leaves q s
        (at_phase T current_timestamp read_source false (T.read read copy_buffer_bytes))
        (on_chunk T current_timestamp write rest) (law.node-read read copy_buffer_bytes q s)
        λ chunk e.
          on_chunk-leaves write rest q (T.read read copy_buffer_bytes s).1 away
            (copy_chunks-leaves fuel read write q away) chunk

  pub transfer-leaves :
      (fuel : ℕ) (swap : FormatRulesUserSwapPaths) (q : Text) (s : T.State)
      → apart swap.new_path q ≡ true
      → law.node (transfer T current_timestamp request fuel swap s).1 q ≡ law.node s q
  unfolding transfer
  transfer-leaves fuel swap q s away =
      let opening =
        at_phase T current_timestamp read_source false
          (T.open_read request.source_peer.root request.source_path) in
      let creating =
        at_phase T current_timestamp write_swap_new false
          (T.open_write request.destination_peer.root swap.new_path) in
      let s1 = (opening s).1 in
      let s2 = (creating s1).1 in
      bind_leaves q s opening (open_new T current_timestamp request fuel swap)
        (law.node-open_read request.source_peer.root request.source_path q s)
        λ read e.
          bind_leaves q s1 creating (copy_opened T current_timestamp request fuel read)
            (law.node-open_write swap.new_path q s1 away)
            λ write f.
              let opened =
                (law.open_write-ok swap.new_path s1 write (
                  map_err-ok (λ x. failure write_swap_new (some x) false)
                    (T.open_write request.destination_peer.root swap.new_path s1).0 write f)).0 in
              let away2 = subst (λ p. apart p q ≡ true) (sym opened) away in
              let copying = copy_chunks T current_timestamp fuel read write in
              let s3 = (copying s2).1 in
              bind_leaves q s2 copying (λ _. close_both T current_timestamp request read write)
                (copy_chunks-leaves fuel read write q away2 s2)
                λ a g.
                  bind_leaves q s3
                    (at_phase T current_timestamp read_source false (T.close_read read))
                    (λ _. at_phase T current_timestamp write_swap_new false (T.close_write write))
                    (law.node-close_read read q s3)
                    λ b h. law.node-close_write write q (T.close_read read s3).1 away2
