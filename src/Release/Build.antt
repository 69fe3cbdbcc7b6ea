-- ===== src/Release/Build.antt =====
-- `main` of scripts/build-release.py. The files are a dictionary by path. What the script runs and
-- reads is given: `make` with the path of its log and its command, `now` as the clock's readings,
-- `sha` as the hexadecimal SHA-256, and JSON as a writer and a reader.
pub mod Outcome
pub mod Loop
pub mod ExitCode
pub mod Reuse
pub mod Made
use linux_build.Base.{
  ℕ, zero, suc, ◌+◌, Bool, true, false, not, ◌&&◌, ◌||◌, List, [], ◌∷◌, ◌++◌, Option, none, some,
  ltb, ◌==◌, ℤ, pos, negsuc, length, Text, codes, text_eq, text_in, starts_with, remove_prefix,
  decimal, if◌then◌else◌, Result, ok, err, runtime_error, exited, os_error, command_failed, map,
  has_char,
}
use linux_build.Base as Base
use linux_build.Base.Dict.{Dict, lookup, insert}
use linux_build.Base.State.{Action, ◌>>=◌, ◌>>◌, give, lift}
use linux_build.Toml.{int_text}
use linux_build.Release.Matrix.{Preset, variants, count_packages, package_name, arch_of, distros}
use linux_build.Release.Order.{int10, sort_configs}
use linux_build.Release.Status.{
  Item, Status, World, Outside, Options, Step, going, failed, positive, is_zero, under,
  archive_name, begun, with_packages, with_end, target_of, archives_in, same_set, matches_record,
}

module _ (out : Outside) (o : Options) where
  abbrev pub archive_path : Text → Text
  archive_path name = o.dist ++ (b'/' ∷ archive_name name)

  abbrev pub manifest_path : Text → Text
  manifest_path name = o.dist ++ (b'/' ∷ (name ++ codes "/manifest.json"))

  abbrev pub result_path : Text
  result_path = o.dist ++ codes "/build-result.json"

  abbrev pub log_path : Text → Text
  log_path name = o.dist ++ (codes "/build-logs/" ++ (name ++ codes ".log"))

  -- `time.time()`
  abbrev pub time : Action World ℕ
  time w = (record { files = w.files; readings = suc w.readings }, ok (out.now w.readings))

  abbrev pub save : Status → Action World (Unit {0})
  save status w = (
    record { files = insert result_path (out.dumps status) w.files; readings = w.readings },
    ok tt,
  )

  -- `sha(path)`
  unfoldable pub sha_of : Text → Action World Text
  sha_of path w = elim (lookup path w.files) [
    | none ↦ (w, err (os_error path))
    | some content ↦ (w, ok (out.sha content))
  ]

  unfoldable pub run : Text → List Text → Action World ℤ
  run log command w =
      let (files, code) = out.make log command w.files in
      (record { files = files; readings = w.readings }, ok code)

  -- The test behind `--resume`.
  unfoldable pub reusable : Text → Dict Text → Result Bool
  reusable name files = elim o.resume [
    | false ↦ ok false
    | true ↦ elim (lookup (archive_path name) files) [
      | none ↦ ok false
      | some archive ↦ elim (lookup (manifest_path name) files) [
        | none ↦ ok false
        | some manifest ↦ matches_record out.sha o.root files (out.build_inputs manifest)
      ]
    ]
  ]

  unfoldable pub record_reuse : Status → Item → Text → Action World Step
  record_reuse status item digest = do
    finished ← time
    let done : Item = record {
      preset = item.preset;
      variant = item.variant;
      archive = item.archive;
      started = item.started;
      command = none;
      log = none;
      returncode = some (pos 0);
      reused = true;
      sha256 = some digest;
      finished = some finished;
    }
    let status' = with_packages status (status.packages ++ (done ∷ []))
    save status'
    give (going status')

  unfoldable pub reuse : Status → Item → Text → Action World Step
  reuse status item name = sha_of (archive_path name) >>= record_reuse status item

  abbrev pub command_of : Text → List Text
  command_of variant =
      codes "make"
      ∷ (codes "NPROC=" ++ int_text o.jobs)
      ∷ (codes "BUILD_ROOT=" ++ o.build_root)
      ∷ (codes "DIST_DIR=" ++ o.dist)
      ∷ target_of variant
      ∷ []

  -- The item with its command, and what is known of its end.
  abbrev pub built : Item → Text → Option ℤ → Option ℕ → Option Text → Item
  built item name code finished digest = record {
    preset = item.preset;
    variant = item.variant;
    archive = item.archive;
    started = item.started;
    command = some (command_of item.variant);
    log = some (log_path name);
    returncode = code;
    reused = false;
    sha256 = digest;
    finished = finished;
  }

  unfoldable pub record_failure : Status → Item → Text → ℤ → ℕ → Action World Step
  record_failure status item name code finished = do
    end ← time
    let item' = built item name (some code) (some finished) none
    let status' = with_end (with_packages status (status.packages ++ (item' ∷ []))) status.pass end
    save status'
    give (failed status')

  unfoldable pub record_success : Status → Item → Text → ℤ → ℕ → Text → Action World Step
  record_success status item name code finished digest = do
    let item' = built item name (some code) (some finished) (some digest)
    let status' = with_packages status (status.packages ++ (item' ∷ []))
    save status'
    give (going status')

  -- What follows the command, by its exit code.
  unfoldable pub after_build : Status → Item → Text → ℤ → ℕ → Action World Step
  after_build status item name code finished = elim (is_zero code) [
    | false ↦ record_failure status item name code finished
    | true ↦ sha_of (archive_path name) >>= record_success status item name code finished
  ]

  unfoldable pub build : Status → Item → Text → Action World Step
  build status item name = do
    let item' = built item name none none none
    save (with_packages status (status.packages ++ (item' ∷ [])))
    code ← run (log_path name) (command_of item.variant)
    finished ← time
    after_build status item name code finished

  -- The item is reused or built.
  unfoldable pub begin : Status → Item → Text → Bool → Action World Step
  begin status item name true = reuse status item name
  begin status item name false = build status item name

  abbrev pub check_reuse : Text → Action World Bool
  check_reuse name w = (w, reusable name w.files)

  -- The variant, under its name.
  unfoldable pub build_named : Preset → Text → Status → Text → Action World Step
  build_named preset variant status name = do
    started ← time
    can_reuse ← check_reuse name
    begin status (begun preset variant name started) name can_reuse

  unfoldable pub build_variant : Preset → Text → Status → Action World Step
  build_variant preset variant status =
      lift (package_name preset variant) >>= build_named preset variant status

  -- The loop goes on unless the step was `return 1`.
  unfoldable pub on_going : (Status → Action World Step) → Step → Action World Step
  on_going next (failed status) = give (failed status)
  on_going next (going status) = next status

  unfoldable pub build_variants : Preset → List Text → Status → Action World Step
  build_variants preset [] status = give (going status)
  build_variants preset (variant ∷ rest) status =
      build_variant preset variant status >>= on_going (build_variants preset rest)

  -- `make configure`, with `check=True`.
  unfoldable pub configure : Preset → Action World (Unit {0})
  configure preset = do
    arch ← lift (arch_of preset.cfg)
    bits ← lift (int10 (remove_prefix (codes "riscv") arch))
    let command =
        codes "make"
        ∷ codes "configure"
        ∷ (codes "SYSTEM=" ++ (o.root ++ (codes "/configs/" ++ (preset.stem ++ codes ".toml"))))
        ∷ []
    code ← run (o.dist ++ (codes "/build-logs/" ++ (preset.stem ++ codes "-configure.log"))) command
    elim (is_zero code) [
      | true ↦ give tt
      | false ↦ lift (err (command_failed (codes "make configure")))
    ]

  -- The variants of one preset, and what comes behind them.
  unfoldable pub build_all_variants :
      Preset → Status → (Status → Action World Step) → Action World Step
  build_all_variants preset status next = do
    vs ← lift (variants preset.cfg)
    step ← build_variants preset vs status
    on_going next step

  unfoldable pub build_presets : List Preset → Status → Action World Step
  build_presets [] status = give (going status)
  build_presets (preset ∷ rest) status =
      configure preset >> build_all_variants preset status (build_presets rest)

  abbrev pub list_archives : Action World (List Text)
  list_archives w = (w, ok (archives_in o.dist w.files))

  -- The test of the archives in the folder, and the last record.
  unfoldable pub conclude_with : Status → List Text → Action World ℕ
  conclude_with status actual =
      elim (same_set actual (map (λ item. item.archive) status.packages)) [
        | false ↦ lift (err (runtime_error (codes "candidate archive set differs from matrix")))
        | true ↦ do end ← time; save (with_end status true end); give 0
      ]

  unfoldable pub conclude : Status → Action World ℕ
  conclude status = list_archives >>= conclude_with status

  unfoldable pub after_loop : Step → Action World ℕ
  after_loop (failed status) = give 1
  after_loop (going status) = conclude status

  abbrev pub initial : ℕ → ℕ → Status
  initial started count = record {
    started = started;
    expected_packages = count;
    build_root = o.build_root;
    packages = [];
    pass = false;
    finished = none;
  }

  -- `main` with its presets in order, and its start and number of packages known.
  unfoldable pub build_all : List Preset → ℕ → ℕ → Action World ℕ
  build_all configs started count = do
    save (initial started count)
    step ← build_presets configs (initial started count)
    after_loop step

  -- `main` with its presets in order.
  unfoldable pub main_on : List Preset → Action World ℕ
  main_on configs = do
    started ← time
    count ← lift (count_packages configs)
    build_all configs started count

  -- The exit code. `presets` are those of the folder `configs`, in any order.
  unfoldable pub main : List Preset → Action World ℕ
  main presets = elim (positive o.jobs) [
    | false ↦ lift (err (exited (codes "jobs must be positive")))
    | true ↦ lift (sort_configs presets) >>= main_on
  ]
