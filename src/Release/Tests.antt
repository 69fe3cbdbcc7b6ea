-- ===== src/Release/Tests.antt =====
-- Runs of the release scripts on one preset.
use linux_build.Base.{
  strip, true, false, none, some, [], ◌∷◌, ◌≡◌, refl, Text, codes, ok, if◌then◌else◌, pos, ℤ,
  text_eq, text_in, starts_with, remove_prefix, has_char,
}
use linux_build.Base.Dict.{Dict, lookup, insert}
use linux_build.Toml.{Value, Fields, end, field, table, str, get, has_key, to_text}
use linux_build.Release.Matrix.{
  Preset, variants, package_name, subscript, get_or_none, text_of, distro_of, arch_of, version_of,
  is_plain, prefix_of, count_packages,
}
use linux_build.Release.Order.{
  sort_configs, keyed, order, int10, int_all, split_from, replace_text, sort_keyed, insert_keyed,
  presets_of,
}
use linux_build.Release.Status.{
  Item, Status, going, with_packages, World, Outside, Options, inputs_match, matches_record, under,
  archives_in, ends_with, all_in,
}
use linux_build.Release.Build.{
  reuse, record_reuse, sha_of, run, reusable, record_success, after_build, build, begin,
  build_named, build_variant, on_going, build_variants, configure, build_all_variants,
  build_presets, conclude_with, conclude, after_loop, build_all, main_on, main,
}
use linux_build.Release.Matrix.Names.{IsNamed, package_name-inj}
use linux_build.Release.Build.ExitCode.{IsComplete, main-Meant}
use linux_build.Release.Build.Made.{IsMade, build_variant-IsMade}

abbrev entry : Text → Value → Fields
entry k v = field k v end

abbrev preset : Preset
preset = record {
  stem = codes "qemu-rv32";
  cfg =
      field (codes "target") (table (entry (codes "arch") (str (codes "riscv32"))))
        (entry (codes "kernel") (table (entry (codes "version") (str (codes "6.18")))));
}

abbrev one_archive : Text
one_archive = codes "/d/linux-riscv-qemu-rv32-v6.18.tar.gz"

-- A world in which `make` always writes the one one_archive, with the exit code given.
abbrev outside : ℤ → Outside
outside code = record {
  now = λ n. n;
  sha = λ content. content;
  dumps = λ status. if status.pass then codes "pass" else codes "open";
  build_inputs = λ manifest. ok ((codes "Makefile", codes "all:") ∷ []);
  make = λ log command files. (insert one_archive (codes "tar") files, code);
}

abbrev options : Options
options = record {
  root = codes "/r";
  dist = codes "/d";
  build_root = codes "/w";
  jobs = pos 8;
  resume = true;
}

abbrev new_world : World
new_world = record { files = []; readings = 0 }

abbrev after : World
after = (main (outside (pos 0)) options (preset ∷ []) new_world).0

main-run : main (outside (pos 0)) options (preset ∷ []) new_world ≡ (after, ok 0)
unfolding main main_on build_all after_loop conclude conclude_with build_presets build_all_variants
    configure build_variants on_going build_variant build_named begin build after_build
    record_success run sha_of reusable count_packages variants package_name subscript get_or_none
    text_of distro_of arch_of version_of is_plain prefix_of sort_configs keyed order int10 strip
    int_all split_from replace_text sort_keyed insert_keyed presets_of archives_in ends_with all_in
    get text_eq text_in starts_with remove_prefix has_char lookup insert has_key to_text
main-run = refl

main-Meant_example : IsComplete (outside (pos 0)) options (preset ∷ []) after
main-Meant_example = main-Meant (outside (pos 0)) options (preset ∷ []) new_world main-run

abbrev old_files : Dict Text
old_files =
    (one_archive, codes "tar")
    ∷ (codes "/d/linux-riscv-qemu-rv32-v6.18/manifest.json", codes "{}")
    ∷ (codes "/r/Makefile", codes "all:")
    ∷ []

abbrev old_world : World
old_world = record { files = old_files; readings = 0 }

abbrev start : Status
start = record {
  started = 0;
  expected_packages = 1;
  build_root = codes "/w";
  packages = [];
  pass = false;
  finished = none;
}

-- The package as it is recorded when it is reused.
abbrev reused_item : Item
reused_item = record {
  preset = codes "qemu-rv32";
  variant = codes "tiny_shell";
  archive = codes "linux-riscv-qemu-rv32-v6.18.tar.gz";
  started = 0;
  command = none;
  log = none;
  returncode = some (pos 0);
  reused = true;
  sha256 = some (codes "tar");
  finished = some 1;
}

abbrev reused_world : World
reused_world =
    (build_variant (outside (pos 0)) options preset (codes "tiny_shell") start old_world).0

reused_run :
    build_variant (outside (pos 0)) options preset (codes "tiny_shell") start old_world
    ≡ (reused_world, ok (going (with_packages start (reused_item ∷ []))))
unfolding build_variant build_named begin reuse record_reuse sha_of reusable matches_record
    inputs_match under package_name version_of arch_of subscript get text_eq to_text text_of
    prefix_of is_plain remove_prefix text_in starts_with lookup insert
reused_run = refl

build_variant-IsMade_example :
    (name : Text) × (package_name preset (codes "tiny_shell") ≡ ok name)
    × IsMade
        (outside (pos 0))
        options
        (codes "tiny_shell")
        name
        old_files
        reused_world.files
        start
        (with_packages start (reused_item ∷ []))
build_variant-IsMade_example =
    build_variant-IsMade (outside (pos 0)) options preset (codes "tiny_shell") start old_world
      reused_run

preset-IsNamed : IsNamed preset
unfolding version_of arch_of subscript get text_eq to_text text_of has_char remove_prefix
preset-IsNamed = record {
  rest = codes "rv32";
  stem = refl;
  version = codes "6.18";
  has_version = refl;
  version_plain = refl;
  arch = codes "riscv32";
  has_arch = refl;
  bits_plain = refl;
}

preset-package_name :
    package_name preset (codes "tiny_shell") ≡ ok (codes "linux-riscv-qemu-rv32-v6.18")
unfolding package_name version_of arch_of subscript get text_eq to_text text_of prefix_of is_plain
    remove_prefix text_in
preset-package_name = refl

package_name-inj_example :
    (codes "qemu-rv32" ≡ codes "qemu-rv32")
    × (is_plain (codes "tiny_shell") ≡ is_plain (codes "tiny_shell"))
package_name-inj_example =
    package_name-inj preset preset (codes "tiny_shell") (codes "tiny_shell") preset-IsNamed
      preset-IsNamed preset-package_name preset-package_name
