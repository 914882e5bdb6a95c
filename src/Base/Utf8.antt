-- ===== src/Base/Utf8.antt =====
-- Which lists of bytes are UTF-8: `String::from_utf8` of Rust's standard library.
use Prim.Native.Nat.{ℕ}
use mathlib.Core.Bool.{Bool, true, false, ◌&&◌}
use mathlib.Core.Option.{Option, none, some}
use mathlib.Core.List.{List, [], ◌∷◌}
use kitchensync.Base.Tests.{leb, ltb, ◌==◌, if◌then◌else◌}
use kitchensync.Base.Bytes.{Text}

-- The bytes that continue a character of UTF-8, each between two bounds; `none` if the byte starts
-- none.
unfoldable pub continuation : ℕ → Option (List (ℕ × ℕ))
continuation b =
    if ltb b 128
    then some []
    else if leb 194 b && leb b 223
    then some ((128, 191) ∷ [])
    else if b == 224
    then some ((160, 191) ∷ (128, 191) ∷ [])
    else if b == 237
    then some ((128, 159) ∷ (128, 191) ∷ [])
    else if leb 225 b && leb b 239
    then some ((128, 191) ∷ (128, 191) ∷ [])
    else if b == 240
    then some ((144, 191) ∷ (128, 191) ∷ (128, 191) ∷ [])
    else if leb 241 b && leb b 243
    then some ((128, 191) ∷ (128, 191) ∷ (128, 191) ∷ [])
    else if b == 244
    then some ((128, 143) ∷ (128, 191) ∷ (128, 191) ∷ [])
    else none

-- Whether the rest of a text is UTF-8, once the pending bytes are read.
unfoldable pub utf8_rest : List (ℕ × ℕ) → Text → Bool
unfolding continuation
utf8_rest [] [] = true
utf8_rest ((low, high) ∷ pending) [] = false
utf8_rest [] (b ∷ s) = elim (continuation b) [ none ↦ false | some pending ↦ utf8_rest pending s ]
utf8_rest ((low, high) ∷ pending) (b ∷ s) = leb low b && leb b high && utf8_rest pending s

-- `String::from_utf8(…).ok()`
unfoldable pub from_utf8 : List ℕ → Option Text
unfolding utf8_rest
from_utf8 bytes = if utf8_rest [] bytes then some bytes else none
