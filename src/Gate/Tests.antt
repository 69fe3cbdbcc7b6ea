-- ===== src/Gate/Tests.antt =====
-- Runs of scripts/check-release.py on a candidate of one package.
use linux_build.Base.{
  strip, true, false, [], ◌∷◌, ◌≡◌, refl, Text, codes, Result, ok, err, some, none, pos, text_eq,
  text_le, text_in, starts_with, remove_prefix, has_char, decimal,
}
use linux_build.Base.Dict.{lookup, insert}
use linux_build.Base.Image.{find}
use linux_build.Toml.{
  Value, Fields, end, field, table, str, get, has_key, to_text, is_text, int_text,
}
use linux_build.Package.Readme.{Manifest, text_of_lines}
use linux_build.Release.Matrix.{
  Preset, matrix, all_rows, rows_of, sort_presets, insert_preset, variants, package_name, subscript,
  get_or_none, text_of, distro_of, arch_of, version_of, is_plain, prefix_of,
}
use linux_build.Release.Order.{int10}
use linux_build.Release.Status.{under, archives_in, ends_with, all_in}
use linux_build.Gate.Records.{
  Boot, TestRow, TestResults, Files, Outside, Options, read, sha, holds, within, same_dict,
  same_candidate, all_set, all_given,
}
use linux_build.Gate.Boots.{
  modes_of, checks_of, contains, endured, commands_of, check_baseline, check_endurance, check_sleep,
  remove_suffix, log_path, check_log, check_boot, check_boots,
}
use linux_build.Gate.Packages.{
  expected_of, results_of, at_key, covers, memory_tested, configured_version, describes, boots_all,
  check_inputs, check_manifest, check_package, check_packages,
}
use linux_build.Gate.Notes.{table_rows, notes}
use linux_build.Gate.{
  Found, insert_text, sort_texts, paths_in, insert_item, sort_items, checksum_lines, checksums_of,
  count_boots, is_hash, is_dict, dependencies, check_tests, sources_of, evaluate, write_candidate,
  write, compare_record, compare, settle, main,
}
use linux_build.Gate.Json.{
  dumps, loads, loads-dumps, bit, put_text, put_items, put_dict, get_text, get_value, get_key,
  get_items, get_dict, finish, with_hash, with_sources, with_archives, with_tests,
}
use linux_build.Gate.Accepted.{IsAccepted, main-IsAccepted}
use linux_build.Gate.Stale.{ReadsBack, IsKept, Agree, main-Agree, main_accepts_written}

abbrev entry : Text → Value → Fields
entry k v = field k v end

abbrev preset : Preset
preset = record {
  stem = codes "q32";
  cfg =
      field (codes "target") (table (entry (codes "arch") (str (codes "riscv32"))))
        (entry (codes "kernel") (table (entry (codes "version") (str (codes "6")))));
}

abbrev archive : Text
archive = codes "linux-riscv-q32-v6.tar.gz"

abbrev manifest : Manifest
manifest = record {
  preset = codes "q32";
  variant = codes "tiny_shell";
  bits = pos 32;
  kernel_version = codes "6";
  kernel_hz = pos 100;
  memory_mib = pos 1024;
  kernel_address = [];
  kernel_memory_end = [];
  kernel_memory_size = 0;
  payload_kernel_offset = 0;
  fdt_offset = pos 0;
  fdt_address = [];
  opensbi_isa = [];
  abi = [];
  build_inputs = (codes "configs/q32.toml", codes "p") ∷ [];
  source_commit = [];
  opensbi_commit = [];
  created = 0;
}

abbrev split_boot : Boot
split_boot = record {
  mode = codes "split";
  pass = true;
  checks = [];
  network_exec_commands = [] ∷ [] ∷ [] ∷ [];
  capabilities = [];
  child_processes = none;
  sleep_wall = none;
  commands = none;
  uart_sha256 = codes "Linux version 6 s";
}

abbrev payload_boot : Boot
payload_boot = record {
  mode = codes "payload";
  pass = true;
  checks = [];
  network_exec_commands = [];
  capabilities = [];
  child_processes = none;
  sleep_wall = none;
  commands = some (record { command = codes "sleep 2"; wall = 2000000 } ∷ []);
  uart_sha256 = codes "Linux version 6 p";
}

abbrev row : TestRow
row = record {
  archive = archive;
  pass = true;
  archive_sha256 = codes "tar";
  memory_mib = some (pos 1024);
  boots = split_boot ∷ payload_boot ∷ [];
}

abbrev tests : TestResults
tests = record {
  pass = true;
  test_runner_sha256 = some (codes "t");
  test_dependencies =
      some ((codes "release_common.py", codes "c") ∷ (codes "distro_runtime.py", codes "d") ∷ []);
  log_dir = codes "logs";
  results = row ∷ [];
}

abbrev files : Files
files =
    (codes "/r/scripts/test-packages.py", codes "t")
    ∷ (codes "/r/scripts/release_common.py", codes "c")
    ∷ (codes "/r/scripts/distro_runtime.py", codes "d")
    ∷ (codes "/r/scripts/buildroot.mk", codes "b")
    ∷ (codes "/r/scripts/distro.mk", codes "k")
    ∷ (codes "/r/README.md", codes "m")
    ∷ (codes "/r/Makefile", codes "a")
    ∷ (codes "/r/configs/q32.toml", codes "p")
    ∷ (codes "/d/linux-riscv-q32-v6.tar.gz", codes "tar")
    ∷ (codes "/d/test-results.json", codes "results")
    ∷ (codes "/r/logs/linux-riscv-q32-v6-split.log", codes "Linux version 6 s")
    ∷ (codes "/r/logs/linux-riscv-q32-v6-payload.log", codes "Linux version 6 p")
    ∷ []

abbrev options : Options
options = record { root = codes "/r"; dist = codes "/d"; debug = true }

abbrev outside : Outside
outside = record {
  sha = λ content. content;
  read_tests = λ content. ok tests;
  manifest_in = λ content path. ok manifest;
  decode_log = λ log. log;
  dumps = dumps;
  loads = loads;
}

outside-ReadsBack : ReadsBack outside
outside-ReadsBack = record { again = λ c h. c; loads-dumps = loads-dumps; same = λ c h own. own }

-- The files that a run leaves.
abbrev files_of : Result Files → Files
files_of (ok after) = after
files_of (err fault) = []

abbrev written : Files
written = files_of (main outside options true (preset ∷ []) files)

main-run : main outside options true (preset ∷ []) files ≡ ok written
unfolding main evaluate settle write write_candidate compare compare_record matrix all_rows rows_of
    sort_presets insert_preset variants package_name subscript get_or_none text_of distro_of arch_of
    version_of is_plain prefix_of int10 strip expected_of results_of at_key covers memory_tested
    configured_version describes boots_all check_inputs check_manifest check_package check_packages
    modes_of checks_of contains endured commands_of check_baseline check_endurance check_sleep
    remove_suffix log_path check_log check_boot check_boots insert_text sort_texts paths_in
    insert_item sort_items checksum_lines checksums_of count_boots is_hash is_dict dependencies
    check_tests sources_of under archives_in ends_with all_in read sha holds within same_dict
    same_candidate all_set all_given get has_key to_text is_text lookup insert find text_eq text_le
    text_in starts_with remove_prefix has_char table_rows notes decimal dumps loads get_text
    get_value get_key get_items get_dict finish with_hash with_sources with_archives with_tests bit
    put_text put_dict put_items int_text text_of_lines
main-run = refl

written-same :
    evaluate outside options (preset ∷ []) written ≡ evaluate outside options (preset ∷ []) files
unfolding main evaluate settle write write_candidate compare compare_record matrix all_rows rows_of
    sort_presets insert_preset variants package_name subscript get_or_none text_of distro_of arch_of
    version_of is_plain prefix_of int10 strip expected_of results_of at_key covers memory_tested
    configured_version describes boots_all check_inputs check_manifest check_package check_packages
    modes_of checks_of contains endured commands_of check_baseline check_endurance check_sleep
    remove_suffix log_path check_log check_boot check_boots insert_text sort_texts paths_in
    insert_item sort_items checksum_lines checksums_of count_boots is_hash is_dict dependencies
    check_tests sources_of under archives_in ends_with all_in read sha holds within same_dict
    same_candidate all_set all_given get has_key to_text is_text lookup insert find text_eq text_le
    text_in starts_with remove_prefix has_char table_rows notes decimal dumps loads get_text
    get_value get_key get_items get_dict finish with_hash with_sources with_archives with_tests bit
    put_text put_dict put_items int_text text_of_lines
written-same = refl

written-IsKept : IsKept outside options written written
written-IsKept = record { ready = refl; notes = refl; sums = refl }

main-IsAccepted_example :
    (found : Found) × IsAccepted outside options (preset ∷ []) files found
    × (settle outside options true found files ≡ ok written)
main-IsAccepted_example = main-IsAccepted outside options true (preset ∷ []) files main-run

main_accepts_written_example : main outside options false (preset ∷ []) written ≡ ok written
main_accepts_written_example =
    main_accepts_written outside options outside-ReadsBack (preset ∷ []) (preset ∷ []) files written
      written main-run written-IsKept written-same

main_again : main outside options false (preset ∷ []) written ≡ ok written
unfolding main evaluate settle write write_candidate compare compare_record matrix all_rows rows_of
    sort_presets insert_preset variants package_name subscript get_or_none text_of distro_of arch_of
    version_of is_plain prefix_of int10 strip expected_of results_of at_key covers memory_tested
    configured_version describes boots_all check_inputs check_manifest check_package check_packages
    modes_of checks_of contains endured commands_of check_baseline check_endurance check_sleep
    remove_suffix log_path check_log check_boot check_boots insert_text sort_texts paths_in
    insert_item sort_items checksum_lines checksums_of count_boots is_hash is_dict dependencies
    check_tests sources_of under archives_in ends_with all_in read sha holds within same_dict
    same_candidate all_set all_given get has_key to_text is_text lookup insert find text_eq text_le
    text_in starts_with remove_prefix has_char table_rows notes decimal dumps loads get_text
    get_value get_key get_items get_dict finish with_hash with_sources with_archives with_tests bit
    put_text put_dict put_items int_text text_of_lines
main_again = refl

main-Agree_example :
    (◌≡◌ {A = Files} written written)
    × (first : Found) × (second : Found) × (evaluate outside options (preset ∷ []) files ≡ ok first)
    × (evaluate outside options (preset ∷ []) written ≡ ok second)
    × Agree outside options first second
main-Agree_example =
    main-Agree outside options outside-ReadsBack (preset ∷ []) (preset ∷ []) files written written
      main-run written-IsKept main_again
