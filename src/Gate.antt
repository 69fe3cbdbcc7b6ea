-- ===== src/Gate.antt =====
-- `main` of scripts/check-release.py, which accepts a candidate for a release. The files are a
-- dictionary by path; `presets` are those of the folder `configs`.
pub mod Records
pub mod Boots
pub mod Packages
pub mod Notes
pub mod Accepted
pub mod Recorded
pub mod Stale
pub mod Json
pub mod Tests
use linux_build.Base.{
  ℕ, ◌+◌, Bool, true, false, not, ◌&&◌, ◌||◌, List, [], ◌∷◌, ◌++◌, Option, none, some, ◌==◌, length,
  Text, codes, newline, text_eq, text_le, has_char, if◌then◌else◌, Result, ok, err, assertion,
  runtime_error, key_error, ◌>>=◌, ◌>>◌, require, map,
}
use linux_build.Base.Dict.{Dict, lookup, insert}
use linux_build.Release.Matrix.{Preset, matrix}
use linux_build.Release.Status.{in_folder, ends_with, archives_in, same_set}
use linux_build.Gate.Records.{
  TestRow, TestResults, Candidate, Expected, Files, Outside, Options, read, sha, same_dict,
  same_candidate,
}
use linux_build.Gate.Packages.{expected_of, results_of, covers, check_packages}
use linux_build.Gate.Notes.{table_rows, notes}

-- `sorted(...)` of texts
unfoldable pub insert_text : Text → List Text → List Text
insert_text t [] = t ∷ []
insert_text t (u ∷ us) = if text_le t u then t ∷ u ∷ us else u ∷ insert_text t us

unfoldable pub sort_texts : List Text → List Text
sort_texts [] = []
sort_texts (t ∷ ts) = insert_text t (sort_texts ts)

-- `folder.glob('*' + suffix)`, where the folder has only files; the whole paths.
unfoldable pub paths_in : Text → Text → List (Text × Text) → List Text
paths_in folder suffix [] = []
paths_in folder suffix ((path, content) ∷ files) = elim (in_folder folder path) [
  | none ↦ paths_in folder suffix files
  | some name ↦
      if not (has_char b'/' name) && ends_with name suffix
      then path ∷ paths_in folder suffix files
      else paths_in folder suffix files
]

-- `sorted(archives.items())`
unfoldable pub insert_item : Text × Text → Dict Text → Dict Text
insert_item item [] = item ∷ []
insert_item item (other ∷ others) =
    if text_le item.0 other.0 then item ∷ other ∷ others else other ∷ insert_item item others

unfoldable pub sort_items : Dict Text → Dict Text
sort_items [] = []
sort_items (item ∷ others) = insert_item item (sort_items others)

unfoldable pub checksum_lines : Dict Text → Text
checksum_lines [] = []
checksum_lines ((name, h) ∷ archives) =
    h ++ (codes "  " ++ (name ++ (newline ∷ checksum_lines archives)))

unfoldable pub checksums_of : Dict Text → Text
checksums_of archives = checksum_lines (sort_items archives)

unfoldable pub count_boots : List TestRow → ℕ
count_boots [] = 0
count_boots (row ∷ rows) = length row.boots + count_boots rows

-- `d.get(k) == v`, for what `get` gives.
unfoldable pub is_hash : Text → Option Text → Bool
is_hash h none = false
is_hash h (some g) = text_eq g h

unfoldable pub is_dict : Dict Text → Option (Dict Text) → Bool
is_dict d none = false
is_dict d (some e) = same_dict e d

-- What the checks find: `expected`, `checksums` and `record`.
pub record Found : Type 0 where
  pub expected : Dict Expected
  pub checksums : Text
  pub candidate : Candidate

module _ (out : Outside) (o : Options) where
  abbrev pub in_dist : Text → Text
  in_dist name = o.dist ++ (b'/' ∷ name)

  abbrev pub in_root : Text → Text
  in_root name = o.root ++ (b'/' ∷ name)

  -- `{p: sha(root / 'scripts' / p) for p in (...)}`
  unfoldable pub dependencies : Files → Result (Dict Text)
  dependencies files = do
    runtime ← sha out (in_root (codes "scripts/distro_runtime.py")) files
    common ← sha out (in_root (codes "scripts/release_common.py")) files
    ok ((codes "distro_runtime.py", runtime) ∷ (codes "release_common.py", common) ∷ [])

  -- The assertions on the whole of the results.
  unfoldable pub check_tests : Files → TestResults → Dict Expected → Result (Unit {0})
  check_tests files tests expected = do
    require tests.pass (assertion (codes "package tests failed"))
    runner ← sha out (in_root (codes "scripts/test-packages.py")) files
    require (is_hash runner tests.test_runner_sha256)
        (assertion (codes "test runner changed; rerun tests"))
    ds ← dependencies files
    require (is_dict ds tests.test_dependencies)
        (assertion (codes "test dependencies changed; rerun tests"))
    require (covers tests.results expected) (assertion (codes "test coverage is incomplete"))

  abbrev pub source_paths : Files → List Text
  source_paths files =
      sort_texts (paths_in (in_root (codes "scripts")) (codes ".py") files)
      ++ (in_root (codes "README.md")
          ∷ in_root (codes "Makefile")
          ∷ in_root (codes "scripts/buildroot.mk")
          ∷ in_root (codes "scripts/distro.mk")
          ∷ (sort_texts (paths_in (in_root (codes "rootfs/distro")) [] files)
              ++ (sort_texts (paths_in (in_root (codes "configs")) (codes ".toml") files)
                  ++ sort_texts (paths_in (in_root (codes "docs")) (codes ".md") files))))

  abbrev pub relative : Text → Text
  relative path = elim (in_folder o.root path) [ none ↦ path | some name ↦ name ]

  -- `source`, with the hashes of the paths added.
  unfoldable pub sources_of : Files → List Text → Dict Text → Result (Dict Text)
  sources_of files [] source = ok source
  sources_of files (path ∷ paths) source = do
    h ← sha out path files
    sources_of files paths (insert (relative path) h source)

  -- Everything up to the test of `a.write`.
  unfoldable pub evaluate : List Preset → Files → Result Found
  evaluate presets files = do
    rows ← matrix presets
    expected ← expected_of rows []
    require (same_set (map (λ entry. entry.0) expected) (archives_in o.dist files))
        (assertion (codes "archive set differs from current preset matrix"))
    written ← read (in_dist (codes "test-results.json")) files
    tests ← out.read_tests written
    check_tests files tests expected
    archives ← check_packages out o files tests (results_of tests.results []) expected
    source ← sources_of files (source_paths files) []
    ok (record {
      expected = expected;
      checksums = checksums_of archives;
      candidate = record {
        schema = 1;
        ready = true;
        package_count = length archives;
        boot_paths = count_boots tests.results;
        board_tested = false;
        published = false;
        archives = archives;
        test_results_sha256 = out.sha written;
        source_files = source;
      };
    })

  -- The files that `--write` writes.
  unfoldable pub write_candidate : Found → Text → Files → Files
  write_candidate found text files =
      insert (in_dist (codes "release-ready.json")) (out.dumps found.candidate (out.sha text)) (
        insert (in_dist (codes "release-notes.md")) text
          (insert (in_dist (codes "SHA256SUMS")) found.checksums files))

  unfoldable pub write : Found → Files → Result Files
  write found files = do
    rows ← table_rows found.expected
    ok (write_candidate found (notes (length found.candidate.archives) rows) files)

  -- The comparison of the record with what the checks find.
  unfoldable pub compare_record : Found → Text → Candidate × Option Text → Result (Unit {0})
  compare_record found notes_sha (previous, none) = err (key_error (codes "release_notes_sha256"))
  compare_record found notes_sha (previous, some h) = do
    require (text_eq h notes_sha) (assertion (codes "release notes changed"))
    require (same_candidate previous found.candidate)
        (assertion (codes "readiness record stale; run release_ready again"))

  -- Without `--write` the files written before are compared.
  unfoldable pub compare : Found → Files → Result (Unit {0})
  compare found files = do
    ready ← read (in_dist (codes "release-ready.json")) files
    previous ← out.loads ready
    sums ← read (in_dist (codes "SHA256SUMS")) files
    require (text_eq sums found.checksums) (assertion (codes "checksums changed"))
    notes_sha ← sha out (in_dist (codes "release-notes.md")) files
    compare_record found notes_sha previous

  -- The files after a run that succeeds.
  unfoldable pub settle : Bool → Found → Files → Result Files
  settle true found files = write found files
  settle false found files = do compare found files; ok files

  unfoldable pub main : Bool → List Preset → Files → Result Files
  main to_write presets files = do
    require o.debug
        (runtime_error (codes "release checks require Python assertions; unset PYTHONOPTIMIZE"))
    found ← evaluate presets files
    settle to_write found files
