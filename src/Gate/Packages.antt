-- ===== src/Gate/Packages.antt =====
-- What scripts/check-release.py requires of each package of the matrix.
pub mod Tested
use linux_build.Base.{
  ℕ, ◌+◌, Bool, true, false, not, ◌&&◌, List, [], ◌∷◌, ◌++◌, Option, none, some, ◌==◌, ℤ, pos,
  leb_ℤ, length, Text, codes, text_eq, text_in, remove_prefix, Result, ok, err, assertion,
  key_error, ◌>>=◌, ◌>>◌, require, map,
}
use linux_build.Base.Dict.{Dict, lookup, insert}
use linux_build.Toml.{Value, is_text, table}
use linux_build.Package.Readme.{Manifest}
use linux_build.Release.Matrix.{Preset, subscript, arch_of}
use linux_build.Release.Matrix as Matrix
use linux_build.Release.Order.{int10}
use linux_build.Release.Status.{under, same_set, archive_name}
use linux_build.Gate.Records.{
  Boot, TestRow, TestResults, Expected, Files, Outside, Options, read, sha, holds,
}
use linux_build.Gate.Boots.{insist, modes_of, stem_of, check_boots}

-- `expected`, from the rows of the matrix.
unfoldable pub expected_of : List Matrix.Row → Dict Expected → Result (Dict Expected)
expected_of [] expected = ok expected
expected_of (row ∷ rows) expected = do
  arch ← arch_of row.preset.cfg
  bits ← int10 (remove_prefix (codes "riscv") arch)
  let entry : Expected = record { preset = row.preset; bits = bits; variant = row.variant }
  expected_of rows (insert (archive_name row.name) entry expected)

-- `results`, from the rows of the tests.
unfoldable pub results_of : List TestRow → Dict TestRow → Dict TestRow
results_of [] results = results
results_of (row ∷ rows) results = results_of rows (insert row.archive row results)

-- `d[k]`
unfoldable pub at_key {ℓ} : {A : Type ℓ} → Text → Dict A → Result A
at_key k d = elim (lookup k d) [ none ↦ err (key_error k) | some v ↦ ok v ]

-- `len(rows) == len(expected) and {r['archive'] for r in rows} == set(expected)`
unfoldable pub covers : List TestRow → Dict Expected → Bool
covers rows expected =
    length rows == length expected
    && same_set (map (λ row. row.archive) rows) (map (λ entry. entry.0) expected)

-- `result['memory_mib']`
unfoldable pub memory_tested : TestRow → Result ℤ
memory_tested row = elim row.memory_mib [
  | none ↦ err (key_error (codes "memory_mib"))
  | some memory ↦ ok memory
]

abbrev pub eq_ℤ : ℤ → ℤ → Bool
eq_ℤ a b = leb_ℤ a b && leb_ℤ b a

-- `cfg['kernel']['version']`
unfoldable pub configured_version : Preset → Result Value
configured_version preset = do
  kernel ← subscript (table preset.cfg) (codes "kernel")
  subscript kernel (codes "version")

-- The comparison of the manifest with what is expected.
unfoldable pub describes : Manifest → Expected → Value → Bool
describes m e version =
    text_eq m.preset e.preset.stem
    && eq_ℤ m.bits e.bits
    && text_eq m.variant e.variant
    && is_text version m.kernel_version
    && eq_ℤ m.kernel_hz (pos 100)

-- `str(preset.relative_to(root))`
abbrev pub preset_path : Expected → Text
preset_path e = codes "configs/" ++ (e.preset.stem ++ codes ".toml")

-- `{b['mode'] for b in boots} == modes`, and as many boots.
unfoldable pub boots_all : List Boot → Text → Bool
boots_all boots variant =
    length boots == length (modes_of variant)
    && same_set (map (λ b. b.mode) boots) (modes_of variant)

module _ (out : Outside) (o : Options) where
  -- Every build input is a file with the recorded hash.
  unfoldable pub check_inputs : Files → Text → Dict Text → Result (Unit {0})
  check_inputs files name [] = ok tt
  check_inputs files name ((path, hash) ∷ inputs) = do
    found ← sha out (under o.root path) files
    insist (text_eq found hash) name (codes "build input changed: " ++ path)
    check_inputs files name inputs

  -- The comparisons of the manifest.
  unfoldable pub check_manifest : Files → Text → Expected → TestRow → Manifest → Result (Unit {0})
  check_manifest files name e row m = do
    version ← configured_version e.preset
    insist (describes m e version) name (codes "manifest mismatch")
    memory ← memory_tested row
    insist (eq_ℤ m.memory_mib memory && eq_ℤ memory (pos 1024)) name (codes "expected 1 GiB RAM")
    preset ← sha out (under o.root (preset_path e)) files
    insist (holds (preset_path e) preset m.build_inputs) name (codes "preset changed")
    check_inputs files name m.build_inputs

  -- One archive; its digest.
  unfoldable pub check_package : Files → TestResults → Dict TestRow → Text → Expected → Result Text
  check_package files tests results name e = do
    archive ← read (o.dist ++ (b'/' ∷ name)) files
    row ← at_key name results
    insist (row.pass && text_eq row.archive_sha256 (out.sha archive)) name
        (codes "archive changed after testing")
    m ← out.manifest_in archive (stem_of name ++ codes "/manifest.json")
    check_manifest files name e row m
    insist (boots_all row.boots e.variant) name (codes "missing boot path")
    check_boots out o files tests.log_dir name e.variant m row.boots
    ok (out.sha archive)

  -- `archives`
  unfoldable pub check_packages :
      Files → TestResults → Dict TestRow → Dict Expected → Result (Dict Text)
  check_packages files tests results [] = ok []
  check_packages files tests results ((name, e) ∷ expected) = do
    digest ← check_package files tests results name e
    archives ← check_packages files tests results expected
    ok ((name, digest) ∷ archives)
