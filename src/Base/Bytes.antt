-- ===== src/Base/Bytes.antt =====
-- Byte strings as lists of numbers, with the uses of Python's `bytes` that the scripts make.
pub mod Slices
pub mod Hex
use Prim.Native.Nat.{ℕ, zero, suc, ◌+◌, ◌-◌, ◌*◌, ◌/◌, ◌%◌, ◌≤◌, ◌<◌, bit_and}
use mathlib.Core.Path.{◌≡◌, refl, ap, ◌∙◌}
use mathlib.Core.Bool.{Bool, true, false, not, ◌&&◌, ◌||◌}
use mathlib.Core.List.{List, [], ◌∷◌, ◌++◌}
use mathlib.Core.Option.{Option, none, some}
use native.Mathlib.Omega.{arith}
use linux_build.Base.Tests.{ltb, leb, ◌==◌, if◌then◌else◌, Bool-cases}
use linux_build.Base.Lists.{length, take, drop, All}
use linux_build.Base.Texts.{codes, text_eq}
use linux_build.Base.Results.{Result, ok, err, value_error, out_of_range, ◌>>=◌}
use linux_build.Base.Int.{ℤ, pos, negsuc, sub_ℕ}

abbrev pub Bytes : Type 0
Bytes = List ℕ

-- An index of a slice, counted from the front: a negative one counts from the end, and both are
-- held within the bytes.
clamp : ℕ → ℤ → ℕ
clamp n (pos i) = if ltb n i then n else i
clamp n (negsuc i) = n - suc i

-- `d[i:j]`
unfoldable pub slice : ℤ → ℤ → Bytes → Bytes
unfolding clamp
slice i j d = let n = length d in let a = clamp n i in take (clamp n j - a) (drop a d)

-- `d[i]` for an index that is not negative
unfoldable pub byte_at : Bytes → ℕ → Result ℕ
byte_at [] i = err out_of_range
byte_at (b ∷ d) zero = ok b
byte_at (b ∷ d) (suc i) = byte_at d i

-- `struct.unpack_from(format, d, i)[0]` for one little-endian unsigned number of `w` bytes.
unfoldable pub unpack : ℕ → Bytes → ℕ → Result ℕ
unfolding byte_at
unpack zero d i = ok 0
unpack (suc w) d i = do low ← byte_at d i; high ← unpack w d (suc i); ok (low + 256 * high)

-- `x & ~3`
unfoldable pub align4 : ℤ → ℤ
align4 (pos n) = pos (n / 4 * 4)
align4 (negsuc n) = negsuc ((n + 4) / 4 * 4 - 1)

-- Whether `int` skips the byte at either end.
is_space : ℕ → Bool
is_space c = c == 32 || (leb 9 c && leb c 13)

skip_spaces : Bytes → Bytes
skip_spaces [] = []
skip_spaces (c ∷ s) = if is_space c then skip_spaces s else c ∷ s

drop_last_spaces : Bytes → Bytes
drop_last_spaces [] = []
drop_last_spaces (c ∷ s) = elim (drop_last_spaces s) [
  | [] ↦ if is_space c then [] else c ∷ []
  | d ∷ t ↦ c ∷ d ∷ t
]

hex_value : ℕ → Option ℕ
hex_value c =
    if leb b'0' c && leb c b'9'
    then some (c - 48)
    else if leb b'a' c && leb c b'f'
    then some (c - 87)
    else if leb b'A' c && leb c b'F'
    then some (c - 55)
    else none

abbrev bad_literal {ℓ} : {A : Type ℓ} → Result A
bad_literal = err (value_error (codes "invalid literal for int() with base 16"))

-- The digits after `acc`. The flags say whether the number may end here, and whether `_` may come.
digits16 : ℕ → Bool → Bool → Bytes → Result ℕ
digits16 acc may_end may_underscore [] = if may_end then ok acc else bad_literal
digits16 acc may_end may_underscore (c ∷ s) = elim (c == b'_') [
  | true ↦ elim may_underscore [ true ↦ digits16 acc false false s | false ↦ bad_literal ]
  | false ↦ elim (hex_value c) [ none ↦ bad_literal | some v ↦ digits16 (acc * 16 + v) true true s ]
]

unsigned16 : Bytes → Result ℕ
unsigned16 (z ∷ x ∷ s) =
    if z == b'0' && (x == b'x' || x == b'X')
    then digits16 0 false true s
    else digits16 0 false false (z ∷ x ∷ s)
unsigned16 s = digits16 0 false false s

signed16 : Bytes → Result ℤ
signed16 [] = bad_literal
signed16 (c ∷ s) =
    if c == b'-'
    then (do n ← unsigned16 s; ok (sub_ℕ 0 n))
    else if c == b'+'
    then (do n ← unsigned16 s; ok (pos n))
    else (do n ← unsigned16 (c ∷ s); ok (pos n))

-- `int(s, 16)`
unfoldable pub int16 : Bytes → Result ℤ
unfolding is_space skip_spaces drop_last_spaces hex_value digits16 unsigned16 signed16
int16 s = signed16 (drop_last_spaces (skip_spaces s))
