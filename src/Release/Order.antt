-- ===== src/Release/Order.antt =====
-- The order in which scripts/build-release.py builds the presets.
pub mod Parts
use linux_build.Base.{
  strip, ℕ, zero, suc, ◌+◌, ◌*◌, ◌-◌, Bool, true, false, ◌&&◌, ◌||◌, List, [], ◌∷◌, ◌++◌, leb, ◌==◌,
  ℤ, pos, sub_ℕ, leb_ℤ, length, Text, codes, text_eq, text_le, starts_with, remove_prefix,
  if◌then◌else◌, Result, ok, err, value_error, ◌>>=◌,
}
use linux_build.Release.Matrix.{Preset, arch_of, subscript, text_of}
use linux_build.Toml.{table}

abbrev bad_literal {ℓ} : {A : Type ℓ} → Result A
bad_literal = err (value_error (codes "invalid literal for int() with base 10"))

-- The digits after `acc`; the flag says that one came last, so that the number may end here or `_` come.
digits10 : ℕ → Bool → Text → Result ℕ
digits10 acc after_digit [] = if after_digit then ok acc else bad_literal
digits10 acc after_digit (c ∷ s) = elim (c == b'_') [
  | true ↦ elim after_digit [ true ↦ digits10 acc false s | false ↦ bad_literal ]
  | false ↦ elim (leb b'0' c && leb c b'9') [
    | true ↦ digits10 (acc * 10 + (c - 48)) true s
    | false ↦ bad_literal
  ]
]

signed10 : Text → Result ℤ
signed10 [] = bad_literal
signed10 (c ∷ s) =
    if c == b'-'
    then (do n ← digits10 0 false s; ok (sub_ℕ 0 n))
    else if c == b'+'
    then (do n ← digits10 0 false s; ok (pos n))
    else (do n ← digits10 0 false (c ∷ s); ok (pos n))

-- `int(s)`, for texts in ASCII
unfoldable pub int10 : Text → Result ℤ
unfolding digits10 signed10
int10 s = signed10 (strip s)

-- `s.split(c)`, from the part read since the last `c`
unfoldable pub split_from : ℕ → Text → Text → List Text
split_from c part [] = part ∷ []
split_from c part (x ∷ s) =
    if x == c then part ∷ split_from c [] s else split_from c (part ++ (x ∷ [])) s

unfoldable pub int_all : List Text → Result (List ℤ)
int_all [] = ok []
int_all (t ∷ ts) = do n ← int10 t; ns ← int_all ts; ok (n ∷ ns)

-- `s.replace(old, new)`, where the first `skip` characters belong to a match.
unfoldable pub replace_text : Text → Text → ℕ → Text → Text
replace_text old new skip [] = []
replace_text old new (suc skip) (c ∷ s) = replace_text old new skip s
replace_text old new zero (c ∷ s) =
    if starts_with (c ∷ s) old
    then new ++ replace_text old new (length old - 1) s
    else c ∷ replace_text old new 0 s

-- The place of a preset among those of its version and architecture.
abbrev pub rank : Text → ℕ
rank suffix =
    if text_eq suffix []
    then 0
    else if text_eq suffix (codes "-s")
    then 1
    else if text_eq suffix (codes "-m")
    then 2
    else if text_eq suffix (codes "-fast")
    then 3
    else if text_eq suffix (codes "-latest")
    then 4
    else 5

pub record Key : Type 0 where
  pub version : List ℤ
  pub arch : Text
  pub place : ℕ

-- `order`
unfoldable pub order : Preset → Result Key
order p = do
  arch ← arch_of p.cfg
  kernel ← subscript (table p.cfg) (codes "kernel")
  version ← subscript kernel (codes "version")
  text ← text_of version
  numbers ← int_all (split_from b'.' [] text)
  ok (record {
    version = numbers;
    arch = arch;
    place =
        rank (
          remove_prefix (codes "qemu-" ++ replace_text (codes "riscv") (codes "rv") 0 arch) p.stem);
  })

-- Whether the one list of numbers comes before the other, and whether they are the same.
unfoldable pub numbers_lt : List ℤ → List ℤ → Bool
numbers_lt ns [] = false
numbers_lt [] (m ∷ ms) = true
numbers_lt (n ∷ ns) (m ∷ ms) =
    if leb_ℤ n m then (if leb_ℤ m n then numbers_lt ns ms else true) else false

unfoldable pub numbers_eq : List ℤ → List ℤ → Bool
numbers_eq [] [] = true
numbers_eq (n ∷ ns) (m ∷ ms) = leb_ℤ n m && leb_ℤ m n && numbers_eq ns ms
numbers_eq _ _ = false

-- `a <= b` for the keys, as tuples.
unfoldable pub key_le : Key → Key → Bool
key_le a b =
    numbers_lt a.version b.version
    || (numbers_eq a.version b.version
        && (if text_eq a.arch b.arch then leb a.place b.place else text_le a.arch b.arch))

unfoldable pub insert_keyed : Key × Preset → List (Key × Preset) → List (Key × Preset)
insert_keyed p [] = p ∷ []
insert_keyed p (q ∷ qs) = if key_le p.0 q.0 then p ∷ q ∷ qs else q ∷ insert_keyed p qs

unfoldable pub keyed : List Preset → Result (List (Key × Preset))
keyed [] = ok []
keyed (p ∷ ps) = do key ← order p; rest ← keyed ps; ok ((key, p) ∷ rest)

unfoldable pub sort_keyed : List (Key × Preset) → List (Key × Preset)
sort_keyed [] = []
sort_keyed (p ∷ ps) = insert_keyed p (sort_keyed ps)

unfoldable pub presets_of : List (Key × Preset) → List Preset
presets_of [] = []
presets_of ((k, p) ∷ ps) = p ∷ presets_of ps

-- `configs.sort(key=order)`
unfoldable pub sort_configs : List Preset → Result (List Preset)
sort_configs ps = do pairs ← keyed ps; ok (presets_of (sort_keyed pairs))
