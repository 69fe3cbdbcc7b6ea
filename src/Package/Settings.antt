-- ===== src/Package/Settings.antt =====
-- `config_values` of scripts/package-artifacts.py, which reads the settings of a built kernel.
use linux_build.Base.{
  ℕ, true, false, ◌&&◌, List, [], ◌∷◌, ◌++◌, ◌≡◌, refl, arith, ◌==◌, Text, codes, has_char,
  starts_with, splitlines, if◌then◌else◌,
}
use linux_build.Base.Dict.{Dict, insert}

-- `line.split(c, 1)` on a line that holds `c`.
unfoldable pub split_at : ℕ → Text → Text × Text
split_at c [] = ([], [])
split_at c (x ∷ s) =
    let (before, after) = split_at c s in if x == c then ([], s) else (x ∷ before, after)

-- One round of the loop, for lines that begin with `prefix`.
unfoldable pub read_line : Text → Text → Dict Text → Dict Text
read_line prefix line d =
    let (key, value) = split_at b'=' line in
    if starts_with line prefix && has_char b'=' line then insert key value d else d

unfoldable pub read_lines : Text → List Text → Dict Text → Dict Text
unfolding read_line
read_lines prefix [] d = d
read_lines prefix (line ∷ lines) d = read_lines prefix lines (read_line prefix line d)

unfoldable pub config_values : Text → Dict Text
unfolding read_lines
config_values text = read_lines (codes "CONFIG_") (splitlines text) []

split_at-append : (c : ℕ) (s t : Text) → has_char c s ≡ false → split_at c (s ++ (c ∷ t)) ≡ (s, t)
unfolding split_at has_char
split_at-append c [] t h = ground arith
split_at-append c (x ∷ s) t h = ground (arith, split_at-append c s t)

has_char-append : (c : ℕ) (s t : Text) → has_char c (s ++ (c ∷ t)) ≡ true
unfolding has_char
has_char-append c [] t = ground arith
has_char-append c (x ∷ s) t = ground (arith, has_char-append c s t)

pub starts_with-append : (s p t : Text) → starts_with s p ≡ true → starts_with (s ++ t) p ≡ true
unfolding starts_with
starts_with-append s [] t h = ground arith
starts_with-append [] (y ∷ p) t h = cc
starts_with-append (x ∷ s) (y ∷ p) t h = ground (arith, starts_with-append s p t)

-- An assignment is read as such.
pub read_line-assignment :
    (prefix key value : Text) (d : Dict Text)
    → starts_with key prefix ≡ true
    → has_char b'=' key ≡ false
    → read_line prefix (key ++ (b'=' ∷ value)) d ≡ insert key value d
unfolding read_line
read_line-assignment prefix key value d p h = rw (
  split_at-append b'=' key value h,
  has_char-append b'=' key value,
  starts_with-append key prefix (b'=' ∷ value) p,
)

pub read_lines-append :
    (prefix : Text) (ls ms : List Text) (d : Dict Text)
    → read_lines prefix (ls ++ ms) d ≡ read_lines prefix ms (read_lines prefix ls d)
unfolding read_lines
read_lines-append prefix [] ms d = refl
read_lines-append prefix (l ∷ ls) ms d = read_lines-append prefix ls ms (read_line prefix l d)
