-- ===== src/Base/Bytes/Hex.antt =====
-- Numbers written in eight hexadecimal digits are read back by `int`.
use Prim.Native.Nat.{ℕ, ◌+◌, ◌*◌, ◌/◌, ◌%◌, ◌<◌}
use mathlib.Core.Path.{◌≡◌, refl, ap, ◌∙◌}
use mathlib.Core.Bool.{Bool, true, false, ◌||◌}
use mathlib.Core.List.{List, [], ◌∷◌, map}
use mathlib.Core.Option.{some}
use native.Mathlib.Omega.{arith}
use linux_build.Base.Tests.{ltb, ◌==◌, if◌then◌else◌}
use linux_build.Base.Lists.{All, length}
use linux_build.Base.Results.{Result, ok, ◌>>=◌}
use linux_build.Base.Int.{pos}
use linux_build.Base.Bytes.{
  Bytes, is_space, skip_spaces, drop_last_spaces, hex_value, digits16, unsigned16, signed16, int16,
}

-- One digit, as `"%x"` writes it.
unfoldable pub hex_char : ℕ → ℕ
hex_char v = if ltb v 10 then 48 + v else 87 + v

-- What the reading of numbers asks of a byte.
record IsDigit (c v : ℕ) : Type 0 where
  value : hex_value c ≡ some v
  no_underscore : (c == b'_') ≡ false
  no_space : is_space c ≡ false
  no_x : (c == b'x' || c == b'X') ≡ false
  no_minus : (c == b'-') ≡ false
  no_plus : (c == b'+') ≡ false

hex_char-IsDigit : (v : ℕ) → v < 16 → IsDigit (hex_char v) v
unfolding hex_char hex_value is_space
hex_char-IsDigit v h = ground arith

abbrev IsSmall : ℕ → Type 0
IsSmall v = v < 16

abbrev value_onto : ℕ → List ℕ → ℕ
value_onto acc [] = acc
value_onto acc (v ∷ vs) = value_onto (acc * 16 + v) vs

digits16-step :
    (acc c v : ℕ) (e u : Bool) (s : Bytes)
    → IsDigit c v
    → digits16 acc e u (c ∷ s) ≡ digits16 (acc * 16 + v) true true s
unfolding digits16
digits16-step acc c v e u s h = rw (h.no_underscore, digits16) (rw (h.value, digits16))

digits16-map :
    (vs : List ℕ) (acc : ℕ) (u : Bool)
    → All IsSmall vs
    → digits16 acc true u (map hex_char vs) ≡ ok (value_onto acc vs)
digits16-map [] acc u h = unfold digits16 in refl
digits16-map (v ∷ vs) acc u h =
    digits16-step acc (hex_char v) v true u (map hex_char vs) (hex_char-IsDigit v h.0)
    ∙ digits16-map vs (acc * 16 + v) true h.1

drop_last_spaces-map :
    (vs : List ℕ) → All IsSmall vs → drop_last_spaces (map hex_char vs) ≡ map hex_char vs
unfolding drop_last_spaces
drop_last_spaces-map [] h = refl
drop_last_spaces-map (v ∷ []) h = rw ((hex_char-IsDigit v h.0).no_space, drop_last_spaces)
drop_last_spaces-map (v ∷ w ∷ vs) h = rw (drop_last_spaces-map (w ∷ vs) h.1, drop_last_spaces)

skip_spaces-map : (v : ℕ) (s : Bytes) → v < 16 → skip_spaces (hex_char v ∷ s) ≡ hex_char v ∷ s
unfolding skip_spaces
skip_spaces-map v s h = rw ((hex_char-IsDigit v h).no_space, skip_spaces)

-- A text that begins with two digits is read with no sign and no prefix.
unsigned16-digits :
    (c d v w : ℕ) (s : Bytes)
    → IsDigit d w
    → unsigned16 (c ∷ d ∷ s) ≡ digits16 0 false false (c ∷ d ∷ s)
unfolding unsigned16
unsigned16-digits c d v w s h = ground (arith, h.no_x)

signed16-digits :
    (c v : ℕ) (s : Bytes)
    → IsDigit c v
    → signed16 (c ∷ s) ≡ (unsigned16 (c ∷ s) >>= λ n. ok (pos n))
unfolding signed16
signed16-digits c v s h = rw (h.no_minus, h.no_plus)

signed16-map :
    (v w : ℕ) (vs : List ℕ)
    → All IsSmall (v ∷ w ∷ vs)
    → signed16 (map hex_char (v ∷ w ∷ vs)) ≡ ok (pos (value_onto 0 (v ∷ w ∷ vs)))
signed16-map v w vs h =
    let dv = hex_char-IsDigit v h.0 in
    let dw = hex_char-IsDigit w h.1.0 in
    signed16-digits (hex_char v) v _ dv
    ∙ ap (λ (r : Result ℕ). r >>= λ n. ok (pos n))
        (unsigned16-digits (hex_char v) (hex_char w) v w (map hex_char vs) dw
          ∙ digits16-step 0 (hex_char v) v false false (map hex_char (w ∷ vs)) dv
          ∙ digits16-map (w ∷ vs) (0 * 16 + v) true h.1)

int16-map :
    (v w : ℕ) (vs : List ℕ)
    → All IsSmall (v ∷ w ∷ vs)
    → int16 (map hex_char (v ∷ w ∷ vs)) ≡ ok (pos (value_onto 0 (v ∷ w ∷ vs)))
int16-map v w vs h =
    unfold int16 in
    rw (skip_spaces-map v (map hex_char (w ∷ vs)) h.0, drop_last_spaces-map (v ∷ w ∷ vs) h)
      (signed16-map v w vs h)

-- The eight digits of a number below 16 ^ 8.
abbrev last_six : ℕ → List ℕ
last_six n =
    n / 0x100000 % 16
    ∷ (n / 0x10000 % 16)
    ∷ (n / 0x1000 % 16)
    ∷ (n / 0x100 % 16)
    ∷ (n / 0x10 % 16)
    ∷ (n % 16)
    ∷ []

abbrev digits8 : ℕ → List ℕ
digits8 n = n / 0x10000000 % 16 ∷ (n / 0x1000000 % 16) ∷ last_six n

digits8-IsSmall : (n : ℕ) → All IsSmall (digits8 n)
digits8-IsSmall n = omega arith

digits8-value : (n : ℕ) → n < 0x100000000 → value_onto 0 (digits8 n) ≡ n
digits8-value n h = omega arith

-- `"%08x"`, for a number that fits.
unfoldable pub hex8 : ℕ → Bytes
hex8 n = map hex_char (digits8 n)

pub length-hex8 : (n : ℕ) → length (hex8 n) ≡ 8
unfolding hex8
length-hex8 n = refl

pub int16-hex8 : (n : ℕ) → n < 0x100000000 → int16 (hex8 n) ≡ ok (pos n)
unfolding hex8
int16-hex8 n h =
    int16-map (n / 0x10000000 % 16) (n / 0x1000000 % 16) (last_six n) (digits8-IsSmall n)
    ∙ ap (λ k. ok (pos k)) (digits8-value n h)
