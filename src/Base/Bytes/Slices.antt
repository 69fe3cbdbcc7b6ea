-- ===== src/Base/Bytes/Slices.antt =====
-- Slices that lie within the bytes.
use Prim.Native.Nat.{ℕ, ◌+◌, ◌-◌, ◌≤◌}
use mathlib.Core.Path.{◌≡◌, ap, ◌∙◌}
use mathlib.Core.List.{◌++◌}
use native.Mathlib.Omega.{arith}
use linux_build.Base.Lists.{length, length-append, take-append_length, drop-append_length}
use linux_build.Base.Int.{pos}
use linux_build.Base.Bytes.{Bytes, clamp, slice}

clamp-le : (n i : ℕ) → i ≤ n → clamp n (pos i) ≡ i
unfolding clamp
clamp-le n i h = ground arith

-- The slice between the length of a part and the end of the next is that next part.
pub slice-middle :
    (a b c d : Bytes) (i j : ℕ)
    → d ≡ a ++ (b ++ c)
    → i ≡ length a
    → j ≡ length a + length b
    → slice (pos i) (pos j) d ≡ b
slice-middle a b c d i j e hi hj =
    let n : length d ≡ length a + (length b + length c) =
      ap length e ∙ length-append a (b ++ c) ∙ ap (λ k. length a + k) (length-append b c) in
    let at_i : clamp (length d) (pos i) ≡ length a = clamp-le _ i (omega arith) ∙ hi in
    let at_j : clamp (length d) (pos j) ≡ length a + length b = clamp-le _ j (omega arith) ∙ hj in
    let width : (length a + length b) - length a ≡ length b = omega arith in
    unfold slice in rw (at_i, at_j, width, e, drop-append_length) (take-append_length b c)
