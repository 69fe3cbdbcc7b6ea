-- ===== src/Gate/Records.antt =====
-- What scripts/check-release.py reads: the results that scripts/test-packages.py writes, and the
-- record of a candidate. Times are whole microseconds.
use linux_build.Base.{
  ℕ, Bool, true, false, not, ◌&&◌, List, [], ◌∷◌, Option, none, some, ◌==◌, ℤ, Text, text_eq,
  Result, ok, err, os_error,
}
use linux_build.Base.Dict.{Dict, lookup}
use linux_build.Toml.{Value, truthy}
use linux_build.Package.Readme.{Manifest}
use linux_build.Release.Matrix.{Preset}

-- An entry of `b['commands']`.
pub record Timed : Type 0 where
  pub command : Text
  pub wall : ℕ

-- An entry of `result['boots']`; a key that `get` reads is empty where it is missing.
pub record Boot : Type 0 where
  pub mode : Text
  pub pass : Bool
  pub checks : Dict Value
  pub network_exec_commands : List Text
  pub capabilities : Dict Value
  pub child_processes : Option ℕ
  pub sleep_wall : Option ℕ
  pub commands : Option (List Timed)
  pub uart_sha256 : Text

-- An entry of `tests['results']`.
pub record TestRow : Type 0 where
  pub archive : Text
  pub pass : Bool
  pub archive_sha256 : Text
  pub memory_mib : Option ℤ
  pub boots : List Boot

pub record TestResults : Type 0 where
  pub pass : Bool
  pub test_runner_sha256 : Option Text
  pub test_dependencies : Option (Dict Text)
  pub log_dir : Text
  pub results : List TestRow

-- `record`, without the hash of the release notes.
pub record Candidate : Type 0 where
  pub schema : ℕ
  pub ready : Bool
  pub package_count : ℕ
  pub boot_paths : ℕ
  pub board_tested : Bool
  pub published : Bool
  pub archives : Dict Text
  pub test_results_sha256 : Text
  pub source_files : Dict Text

-- `expected[name]`; the configuration is that of the preset.
pub record Expected : Type 0 where
  pub preset : Preset
  pub bits : ℤ
  pub variant : Text

abbrev pub Files : Type 0
Files = Dict Text

-- What the script is given: SHA-256, the readers and the writer of JSON, the manifest in an archive,
-- and the decoding of a log with `errors='replace'`.
pub record Outside : Type 0 where
  pub sha : Text → Text
  pub read_tests : Text → Result TestResults
  pub manifest_in : Text → Text → Result Manifest
  pub decode_log : Text → Text
  pub dumps : Candidate → Text → Text
  pub loads : Text → Result (Candidate × Option Text)

-- The folder of the candidate, and the repository.
pub record Options : Type 0 where
  pub root : Text
  pub dist : Text
  -- `__debug__`: Python runs the assertions.
  pub debug : Bool

-- The contents of a file.
unfoldable pub read : Text → Files → Result Text
read path files = elim (lookup path files) [
  | none ↦ err (os_error path)
  | some content ↦ ok content
]

unfoldable pub sha : Outside → Text → Files → Result Text
sha out path files = elim (lookup path files) [
  | none ↦ err (os_error path)
  | some content ↦ ok (out.sha content)
]

-- Whether the dictionary has the text under the key.
unfoldable pub holds : Text → Text → Dict Text → Bool
holds k v d = elim (lookup k d) [ none ↦ false | some w ↦ text_eq v w ]

unfoldable pub within : Dict Text → Dict Text → Bool
within [] e = true
within ((k, v) ∷ d) e = holds k v e && within d e

-- `d == e`
unfoldable pub same_dict : Dict Text → Dict Text → Bool
same_dict d e = within d e && within e d

abbrev pub same_bool : Bool → Bool → Bool
same_bool true b = b
same_bool false b = not b

-- `a == b` for the records.
unfoldable pub same_candidate : Candidate → Candidate → Bool
same_candidate a b =
    a.schema == b.schema
    && same_bool a.ready b.ready
    && a.package_count == b.package_count
    && a.boot_paths == b.boot_paths
    && same_bool a.board_tested b.board_tested
    && same_bool a.published b.published
    && same_dict a.archives b.archives
    && text_eq a.test_results_sha256 b.test_results_sha256
    && same_dict a.source_files b.source_files

unfoldable pub is_true : Value → Bool
is_true (Value.bool b) = b
is_true _ = false

-- `checks.get(k) is True`, and `bool(capabilities.get(k))`
unfoldable pub is_checked : Text → Dict Value → Bool
is_checked k d = elim (lookup k d) [ none ↦ false | some v ↦ is_true v ]

unfoldable pub is_given : Text → Dict Value → Bool
is_given k d = elim (lookup k d) [ none ↦ false | some v ↦ truthy v ]

-- `all(... for k in keys)`
unfoldable pub all_set : List Text → Dict Value → Bool
all_set [] d = true
all_set (k ∷ ks) d = is_checked k d && all_set ks d

unfoldable pub all_given : List Text → Dict Value → Bool
all_given [] d = true
all_given (k ∷ ks) d = is_given k d && all_given ks d
