-- ===== src/Base/Utf8.antt =====
-- `bytes.decode()`, which rejects what is no UTF-8.
use Prim.Native.Nat.{ℕ, ◌+◌, ◌-◌, ◌*◌}
use mathlib.Core.Bool.{Bool, true, false, ◌&&◌, not}
use mathlib.Core.List.{[], ◌∷◌}
use linux_build.Base.Tests.{ltb, leb, if◌then◌else◌}
use linux_build.Base.Texts.{Text, codes}
use linux_build.Base.Bytes.{Bytes}
use linux_build.Base.Results.{Result, ok, err, value_error, ◌>>=◌}

-- A byte that goes on a character.
abbrev continues : ℕ → Bool
continues c = leb 0x80 c && leb c 0xBF

abbrev undecodable {ℓ} : {A : Type ℓ} → Result A
undecodable = err (value_error (codes "'utf-8' codec can't decode"))

abbrev two : ℕ → ℕ → ℕ
two a b = (a - 0xC0) * 64 + (b - 0x80)

abbrev three : ℕ → ℕ → ℕ → ℕ
three a b c = (a - 0xE0) * 4096 + (b - 0x80) * 64 + (c - 0x80)

abbrev four : ℕ → ℕ → ℕ → ℕ → ℕ
four a b c d = (a - 0xF0) * 262144 + (b - 0x80) * 4096 + (c - 0x80) * 64 + (d - 0x80)

-- No character has a longer form than it needs, and none is a surrogate or past 0x10FFFF.
abbrev fits3 : ℕ → Bool
fits3 x = leb 0x800 x && not (leb 0xD800 x && leb x 0xDFFF)

abbrev fits4 : ℕ → Bool
fits4 x = leb 0x10000 x && leb x 0x10FFFF

put : ℕ → Result Text → Result Text
put c rest = do s ← rest; ok (c ∷ s)

unfoldable pub decode : Bytes → Result Text
unfolding put
decode [] = ok []
decode (a ∷ []) = if ltb a 0x80 then ok (a ∷ []) else undecodable
decode (a ∷ b ∷ []) = elim (ltb a 0x80) [
  | true ↦ put a (decode (b ∷ []))
  | false ↦ if leb 0xC2 a && leb a 0xDF && continues b then ok (two a b ∷ []) else undecodable
]
decode (a ∷ b ∷ c ∷ []) = elim (ltb a 0x80) [
  | true ↦ put a (decode (b ∷ c ∷ []))
  | false ↦ elim (leb 0xC2 a && leb a 0xDF && continues b) [
    | true ↦ put (two a b) (decode (c ∷ []))
    | false ↦
        if leb 0xE0 a && leb a 0xEF && continues b && continues c && fits3 (three a b c)
        then ok (three a b c ∷ [])
        else undecodable
  ]
]
decode (a ∷ b ∷ c ∷ d ∷ r) = elim (ltb a 0x80) [
  | true ↦ put a (decode (b ∷ c ∷ d ∷ r))
  | false ↦ elim (leb 0xC2 a && leb a 0xDF && continues b) [
    | true ↦ put (two a b) (decode (c ∷ d ∷ r))
    | false ↦ elim (leb 0xE0 a && leb a 0xEF && continues b && continues c && fits3 (three a b c)) [
      | true ↦ put (three a b c) (decode (d ∷ r))
      | false ↦
          elim (leb 0xF0 a
            && leb a 0xF4
            && continues b
            && continues c
            && continues d
            && fits4 (four a b c d)) [ true ↦ put (four a b c d) (decode r) | false ↦ undecodable ]
    ]
  ]
]
