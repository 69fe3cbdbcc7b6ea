-- ===== src/Release/Matrix.antt =====
-- `variants`, `package_name` and `matrix` of scripts/release_common.py.
pub mod Names
use linux_build.Base.{
  ℕ, ◌+◌, length, Bool, true, false, List, [], ◌∷◌, ◌++◌, ◌||◌, Option, none, some, Text, codes,
  text_eq, text_le, text_in, remove_prefix, if◌then◌else◌, Result, ok, err, key_error, bad_value,
  ◌>>=◌, ◌>>◌,
}
use linux_build.Toml.{
  Value, Fields, end, null, bool, int, str, other, arr, table, get, has_key, to_text,
}

-- A preset file: the stem of its name, and its parsed contents.
pub record Preset : Type 0 where
  pub stem : Text
  pub cfg : Fields

-- `DISTROS`
abbrev pub distros : List Text
distros = codes "alpine" ∷ codes "debian" ∷ []

-- `v[k]`
unfoldable pub subscript : Value → Text → Result Value
subscript (table fs) k = elim (get k fs) [ none ↦ err (key_error k) | some v ↦ ok v ]
subscript _ k = err bad_value

-- `v.get(k)`
unfoldable pub get_or_none : Value → Text → Result Value
get_or_none (table fs) k = elim (get k fs) [ none ↦ ok null | some v ↦ ok v ]
get_or_none _ k = err bad_value

-- A method of `str`, which only a text has.
unfoldable pub text_of : Value → Result Text
text_of (str s) = ok s
text_of _ = err bad_value

-- `cfg.get('rootfs', {})`
abbrev pub rootfs_of : Fields → Value
rootfs_of cfg = elim (get (codes "rootfs") cfg) [ none ↦ table end | some v ↦ v ]

-- The kind, if it is a distribution.
unfoldable pub distro_of : Value → Option Text
distro_of (str s) = if text_in s distros then some s else none
distro_of _ = none

unfoldable pub variants : Fields → Result (List Text)
variants cfg = do
  kind ← get_or_none (rootfs_of cfg) (codes "type")
  elim (distro_of kind) [
    | some distro ↦ ok (distro ∷ [])
    | none ↦ ok (
        codes "tiny_shell"
        ∷ (if has_key (codes "buildroot") cfg then codes "buildroot" ∷ [] else []))
  ]

-- `cfg['target']['arch']`, where a text is needed.
unfoldable pub arch_of : Fields → Result Text
arch_of cfg = do
  target ← subscript (table cfg) (codes "target")
  arch ← subscript target (codes "arch")
  text_of arch

-- `f'{cfg["kernel"]["version"]}'`
unfoldable pub version_of : Fields → Result Text
version_of cfg = do
  kernel ← subscript (table cfg) (codes "kernel")
  version ← subscript kernel (codes "version")
  ok (to_text version)

-- Whether the package is named by its preset alone.
unfoldable pub is_plain : Text → Bool
is_plain variant = text_eq variant (codes "tiny_shell") || text_in variant distros

unfoldable pub prefix_of : Text → Text → Text → Text
prefix_of stem bits variant =
    if is_plain variant
    then codes "linux-riscv-" ++ stem
    else codes "linux-riscv-rv" ++ (bits ++ (b'-' ∷ (stem ++ codes "-buildroot")))

unfoldable pub package_name : Preset → Text → Result Text
package_name preset variant = do
  arch ← arch_of preset.cfg
  version ← version_of preset.cfg
  ok (prefix_of preset.stem (remove_prefix (codes "riscv") arch) variant ++ (codes "-v" ++ version))

-- What `matrix` yields.
pub record Row : Type 0 where
  pub preset : Preset
  pub variant : Text
  pub name : Text

-- `sorted(...)` by the paths, which differ in the names of the files.
unfoldable pub insert_preset : Preset → List Preset → List Preset
insert_preset p [] = p ∷ []
insert_preset p (q ∷ qs) =
    if text_le (p.stem ++ codes ".toml") (q.stem ++ codes ".toml")
    then p ∷ q ∷ qs
    else q ∷ insert_preset p qs

unfoldable pub sort_presets : List Preset → List Preset
sort_presets [] = []
sort_presets (p ∷ ps) = insert_preset p (sort_presets ps)

unfoldable pub rows_of : Preset → List Text → Result (List Row)
rows_of p [] = ok []
rows_of p (variant ∷ vs) = do
  name ← package_name p variant
  rows ← rows_of p vs
  ok (record { preset = p; variant = variant; name = name } ∷ rows)

unfoldable pub all_rows : List Preset → Result (List Row)
all_rows [] = ok []
all_rows (p ∷ ps) = do
  vs ← variants p.cfg
  rows ← rows_of p vs
  more ← all_rows ps
  ok (rows ++ more)

unfoldable pub matrix : List Preset → Result (List Row)
matrix presets = all_rows (sort_presets presets)

-- `sum(len(variants(c)) for _, c in configs)`
unfoldable pub count_packages : List Preset → Result ℕ
count_packages [] = ok 0
count_packages (p ∷ ps) = do vs ← variants p.cfg; n ← count_packages ps; ok (length vs + n)
