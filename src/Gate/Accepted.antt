-- ===== src/Gate/Accepted.antt =====
-- The candidates that scripts/check-release.py accepts.
use linux_build.Base.{
  Bool, true, List, [], ◌∷◌, Option, none, some, Text, codes, text_eq, text_in, text_eq_iff,
  text_eq_refl, &&_iff, ok, >>=-eq-ok, >>-eq-ok, require-eq-ok, Bool-cases, inl, inr, ◌≡◌, sym, ◌∙◌,
  refl, ap, ok-inj, All, IsIn, map, remove_prefix,
}
use mathlib.Core.Path.{subst}
use linux_build.Base.Dict.{Dict, lookup, insert, lookup-insert}
use linux_build.Release.Matrix.{Preset, matrix, arch_of}
use linux_build.Release.Matrix as Matrix
use linux_build.Release.Order.{int10}
use linux_build.Release.Status.{archives_in, same_set, all_in, archive_name}
use linux_build.Gate.Records.{TestResults, Expected, Files, Outside, Options, read, sha, same_dict}
use linux_build.Gate.Boots.Passed.{read-eq-ok}
use linux_build.Gate.Packages.{expected_of, results_of, covers, check_packages}
use linux_build.Gate.Packages.Tested.{AllTested, sha-eq-ok, check_packages-AllTested}
use linux_build.Gate.{
  Found, is_hash, is_dict, in_dist, in_root, dependencies, check_tests, source_paths, sources_of,
  evaluate, settle, main,
}

all_in-All : (ss ts : List Text) → all_in ss ts ≡ true → All (λ s. text_in s ts ≡ true) ss
unfolding all_in
all_in-All [] ts h = tt
all_in-All (s ∷ ss) ts h = let (first, rest) = (&&_iff _ _).0 h in (first, all_in-All ss ts rest)

-- The key is in the dictionary.
abbrev pub Has : Dict Expected → Text → Type 0
Has expected name = (e : Expected) × (lookup name expected ≡ some e)

insert-Has :
    (name key : Text) (e : Expected) (d : Dict Expected) → Has d name → Has (insert key e d) name
insert-Has name key e d (e', h) = elim (Bool-cases (text_eq name key)) [
  | inl same ↦ (e, lookup-insert key name e d ∙ rw same refl)
  | inr other ↦ (e', lookup-insert key name e d ∙ rw other h)
]

expected_of-Has :
    (rows : List Matrix.Row) (d : Dict Expected) {expected : Dict Expected} (name : Text)
    → expected_of rows d ≡ ok expected
    → Has d name
    → Has expected name
unfolding expected_of
expected_of-Has [] d name h k = let (e, l) = k in (e, ap (lookup name) (sym (ok-inj h)) ∙ l)
expected_of-Has (row ∷ rows) d name h k =
    let (arch, a, h₁) = >>=-eq-ok (arch_of row.preset.cfg) _ h in
    let (bits, b, h₂) = >>=-eq-ok (int10 (remove_prefix (codes "riscv") arch)) _ h₁ in
    expected_of-Has rows _ name h₂ (insert-Has name _ _ d k)

expected_of-All :
    (rows : List Matrix.Row) (d : Dict Expected) {expected : Dict Expected}
    → expected_of rows d ≡ ok expected
    → All (λ row. Has expected (archive_name row.name)) rows
unfolding expected_of
expected_of-All [] d h = tt
expected_of-All (row ∷ rows) d h =
    let (arch, a, h₁) = >>=-eq-ok (arch_of row.preset.cfg) _ h in
    let (bits, b, h₂) = >>=-eq-ok (int10 (remove_prefix (codes "riscv") arch)) _ h₁ in
    let entry : Expected = record { preset = row.preset; bits = bits; variant = row.variant } in
    let own : Has (insert (archive_name row.name) entry d) (archive_name row.name) = (
      entry,
      lookup-insert (archive_name row.name) _ entry d
          ∙ rw (text_eq_refl (archive_name row.name)) refl,
    ) in
    (expected_of-Has rows _ _ h₂ own, expected_of-All rows _ h₂)

-- An entry of a row of the matrix.
pub record IsEntry (rows : List Matrix.Row) (entry : Text × Expected) : Type 0 where
  pub row : Matrix.Row
  pub is_row : IsIn row rows
  pub name : entry.0 ≡ archive_name row.name
  pub preset : entry.1.preset ≡ row.preset
  pub variant : entry.1.variant ≡ row.variant
  pub arch : Text
  pub has_arch : arch_of row.preset.cfg ≡ ok arch
  pub bits : int10 (remove_prefix (codes "riscv") arch) ≡ ok entry.1.bits

insert-All :
    (P : Text × Expected → Type 0) (k : Text) (e : Expected) (d : Dict Expected)
    → P (k, e)
    → All P d
    → All P (insert k e d)
unfolding insert
insert-All P k e [] p h = (p, tt)
insert-All P k e ((j, f) ∷ d) p h = elim (Bool-cases (text_eq k j)) [
  | inl same ↦ rw same (subst (λ x. P (x, e)) ((text_eq_iff k j).0 same) p, h.1)
  | inr other ↦ rw other (h.0, insert-All P k e d p h.1)
]

-- Every expected package is that of a row, by the rows that are still to come.
expected_of-IsEntry :
    (all rows : List Matrix.Row) (d : Dict Expected) {expected : Dict Expected}
    → ((row : Matrix.Row) → IsIn row rows → IsIn row all)
    → All (IsEntry all) d
    → expected_of rows d ≡ ok expected
    → All (IsEntry all) expected
unfolding expected_of
expected_of-IsEntry all [] d known made h = subst (All (IsEntry all)) (ok-inj h) made
expected_of-IsEntry all (row ∷ rows) d known made h =
    let (arch, a, h₁) = >>=-eq-ok (arch_of row.preset.cfg) _ h in
    let (bits, b, h₂) = >>=-eq-ok (int10 (remove_prefix (codes "riscv") arch)) _ h₁ in
    let entry : Expected = record { preset = row.preset; bits = bits; variant = row.variant } in
    let own : IsEntry all (archive_name row.name, entry) = record {
      row = row;
      is_row = known row (inl refl);
      name = refl;
      preset = refl;
      variant = refl;
      arch = arch;
      has_arch = a;
      bits = b;
    } in
    expected_of-IsEntry all rows _ (λ r there. known r (inr there))
      (insert-All (IsEntry all) (archive_name row.name) entry d own made) h₂

is_hash-eq : (h : Text) (o : Option Text) → is_hash h o ≡ true → o ≡ some h
unfolding is_hash
is_hash-eq h none e = cc
is_hash-eq h (some g) e = ap some ((text_eq_iff g h).0 e)

is_dict-eq :
    (d : Dict Text) (given : Option (Dict Text))
    → is_dict d given ≡ true
    → (e : Dict Text) × (given ≡ some e) × (same_dict e d ≡ true)
unfolding is_dict
is_dict-eq d none h = cc
is_dict-eq d (some e) h = (e, refl, h)

module _ (out : Outside) (o : Options) where
  -- The archives in the folder are those of the matrix; the tests passed, with the scripts that ran them as they are now,
  -- and cover every package; and each package is as it was tested.
  pub record IsAccepted (presets : List Preset) (files : Files) (found : Found) : Type 0 where
    pub rows : List Matrix.Row
    pub of_matrix : matrix presets ≡ ok rows
    pub complete : All (λ row. Has found.expected (archive_name row.name)) rows
    pub no_more : All (IsEntry rows) found.expected
    pub present :
        All (λ name. text_in name (archives_in o.dist files) ≡ true) (map (λ e. e.0) found.expected)
    pub no_other :
        All (λ name. text_in name (map (λ e. e.0) found.expected) ≡ true) (archives_in o.dist files)
    pub written : Text
    pub has_tests : lookup (in_dist out o (codes "test-results.json")) files ≡ some written
    pub tests : TestResults
    pub are_tests : out.read_tests written ≡ ok tests
    pub passed : tests.pass ≡ true
    pub runner : Text
    pub has_runner : lookup (in_root out o (codes "scripts/test-packages.py")) files ≡ some runner
    pub same_runner : tests.test_runner_sha256 ≡ some (out.sha runner)
    pub dependency_hashes : Dict Text
    pub has_dependencies : dependencies out o files ≡ ok dependency_hashes
    pub same_dependencies :
        (e : Dict Text) × (tests.test_dependencies ≡ some e)
        × (same_dict e dependency_hashes ≡ true)
    pub covered : covers tests.results found.expected ≡ true
    pub tested :
        AllTested out o files tests
          (results_of tests.results [])
          found.expected
          found.candidate.archives
    pub of_tests : found.candidate.test_results_sha256 ≡ out.sha written

  -- What the assertions on the whole of the results show.
  record IsWhole (files : Files) (tests : TestResults) (expected : Dict Expected) : Type 0 where
    passed : tests.pass ≡ true
    runner : Text
    has_runner : lookup (in_root out o (codes "scripts/test-packages.py")) files ≡ some runner
    same_runner : tests.test_runner_sha256 ≡ some (out.sha runner)
    dependency_hashes : Dict Text
    has_dependencies : dependencies out o files ≡ ok dependency_hashes
    same_dependencies :
        (e : Dict Text) × (tests.test_dependencies ≡ some e)
        × (same_dict e dependency_hashes ≡ true)
    covered : covers tests.results expected ≡ true

  check_tests-IsWhole :
      (files : Files) (tests : TestResults) (expected : Dict Expected)
      → check_tests out o files tests expected ≡ ok tt
      → IsWhole files tests expected
  unfolding check_tests
  check_tests-IsWhole files tests expected h =
      let (passed, h₁) = >>-eq-ok tests.pass _ _ h in
      let (hash, r, h₂) =
        >>=-eq-ok (sha out (in_root out o (codes "scripts/test-packages.py")) files) _ h₁ in
      let (same, h₃) = >>-eq-ok (is_hash hash tests.test_runner_sha256) _ _ h₂ in
      let (ds, d, h₄) = >>=-eq-ok (dependencies out o files) _ h₃ in
      let (equal, h₅) = >>-eq-ok (is_dict ds tests.test_dependencies) _ _ h₄ in
      let (runner, there, is) = sha-eq-ok out _ files r in
      record {
        passed = passed;
        runner = runner;
        has_runner = there;
        same_runner = is_hash-eq hash _ same ∙ ap some (sym is);
        dependency_hashes = ds;
        has_dependencies = d;
        same_dependencies = is_dict-eq ds _ equal;
        covered = require-eq-ok _ _ h₅;
      }

  pub evaluate-IsAccepted :
      (presets : List Preset) (files : Files) {found : Found}
      → evaluate out o presets files ≡ ok found
      → IsAccepted presets files found
  unfolding evaluate
  evaluate-IsAccepted presets files {found} h =
      let (rows, r, h₁) = >>=-eq-ok (matrix presets) _ h in
      let (expected, e, h₂) = >>=-eq-ok (expected_of rows []) _ h₁ in
      let names : List Text = map (λ entry. entry.0) expected in
      let (same, h₃) = >>-eq-ok (same_set names (archives_in o.dist files)) _ _ h₂ in
      let (written, w, h₄) =
        >>=-eq-ok (read (in_dist out o (codes "test-results.json")) files) _ h₃ in
      let (tests, t, h₅) = >>=-eq-ok (out.read_tests written) _ h₄ in
      let (u, whole, h₆) = >>=-eq-ok (check_tests out o files tests expected) _ h₅ in
      let (archives, p, h₇) =
        >>=-eq-ok (check_packages out o files tests (results_of tests.results []) expected) _ h₆ in
      let (source, s, h₈) = >>=-eq-ok (sources_of out o files (source_paths out o files) []) _ h₇ in
      let (there, no_other) = (&&_iff _ _).0 same in
      let all = check_tests-IsWhole files tests expected whole in
      let is = ok-inj h₈ in
      rw (sym is) (record {
        rows = rows;
        of_matrix = r;
        complete = expected_of-All rows [] e;
        no_more = expected_of-IsEntry rows rows [] (λ row there. there) tt e;
        present = all_in-All _ _ there;
        no_other = all_in-All _ _ no_other;
        written = written;
        has_tests = read-eq-ok _ files w;
        tests = tests;
        are_tests = t;
        passed = all.passed;
        runner = all.runner;
        has_runner = all.has_runner;
        same_runner = all.same_runner;
        dependency_hashes = all.dependency_hashes;
        has_dependencies = all.has_dependencies;
        same_dependencies = all.same_dependencies;
        covered = all.covered;
        tested = check_packages-AllTested out o files tests _ expected archives p;
        of_tests = refl;
      })

  -- A run that succeeds, with `--write` or without, has found a candidate, on which its last part ends as the
  -- run does: the archives are exactly those of the matrix, each with the preset, word size and variant of one of its
  -- rows, the results are of the present test runner and its
  -- dependencies and cover every package, and each package is the one tested, built of the present inputs,
  -- and passed in each of its boots.
  pub main-IsAccepted :
      (to_write : Bool) (presets : List Preset) (files : Files) {files' : Files}
      → main out o to_write presets files ≡ ok files'
      → (found : Found) × IsAccepted presets files found
        × (settle out o to_write found files ≡ ok files')
  unfolding main
  main-IsAccepted to_write presets files h =
      let (on, h₁) = >>-eq-ok o.debug _ _ h in
      let (found, e, rest) = >>=-eq-ok (evaluate out o presets files) _ h₁ in
      (found, evaluate-IsAccepted presets files e, rest)
