-- ===== src/Config/Tests.antt =====
-- Runs of gen-config.py's functions on a small preset, and the theorems about them there.
use mathlib.Core.List.{Permᴰ}
use linux_build.Base.{
  true, false, [], ◌∷◌, ◌≡◌, refl, arith, Text, codes, some, ok, err, pos, List, All, is_break,
  has_char, has_no_break, has_no_break-HasNoBreak, text_eq, Result, decimal, ◌++◌, text_in,
}
use linux_build.Base.Dict.{lookup}
use linux_build.Toml.{
  int_text, repr, Value, Fields, end, field, bool, str, int, table, items, get, is_text, hashable,
  to_text, has_key, truthy, arr,
}
use linux_build.Package.Settings.{config_values}
use linux_build.Config.Lookup.{deep_get, walk, deep_get-walk}
use linux_build.Config.Kernel.{
  kernel_lines, user_lines, variant_lines, gen_kernel_config, gen_variant_kernel_config,
  variant_cfg,
}
use linux_build.Config.Kernel.ReadBack.{settings, IsSingleLine}
use linux_build.Config.Kernel.Fragments.{
  gen_kernel_config-config_values, gen_variant_kernel_config-config_values, shared_settings,
}
use linux_build.Config.Make.{
  arch_map, riscv64, make_lines, boot_loader, isa_of, abi_of, is_distro, distro_preset, find_arch,
  arch_make_lines, distro_lines, base_lines, gen_make_config,
}
use linux_build.Config.Make.Variables.{arch_name}
use linux_build.Config.Make.Reading.{is_literal, IsLiteral, make_reads, gen_make_config_distro}
use linux_build.Config.Buildroot.{gen_buildroot_config}
use linux_build.Config.Buildroot.Order.{listing, include_key, gen_buildroot_config-perm}
use linux_build.Config.Lookup.Places.{set_in}
use linux_build.Config.Script.{
  Disk, Inputs, main, load_preset, generate, write_configs, put, write_buildroot, print_summary,
}
use linux_build.Config.Script.Files.{IsGenerated, main-IsGenerated}
use linux_build.Config.Script.Frame.{main_keeps}

abbrev entry : Text → Value → Fields
entry k v = field k v end

abbrev settings_table : Fields
settings_table = field (codes "NET") (bool true) (entry (codes "NR_CPUS") (int (pos 4)))

abbrev preset : Fields
preset = field (codes "target") (table (entry (codes "arch") (str (codes "riscv32")))) (
    field (codes "kernel") (table (entry (codes "config") (table settings_table))) (
      entry (codes "minimal")
        (table (entry (codes "kernel") (table (entry (codes "config") (table settings_table)))))))

settings_table-IsSingleLine : All IsSingleLine (items settings_table)
unfolding has_char is_break to_text repr int_text decimal items
settings_table-IsSingleLine = ground arith

deep_get-walk_example :
    deep_get (table preset) (codes "target" ∷ codes "arch" ∷ []) (str (codes "?"))
    ≡ str (codes "riscv32")
unfolding walk get text_eq
deep_get-walk_example =
    deep_get-walk (codes "target" ∷ codes "arch" ∷ []) (table preset) (str (codes "?")) tt

gen_kernel_config-config_values_example :
    (text : Text) × (gen_kernel_config (table preset) ≡ ok text)
    × (config_values text
        ≡ shared_settings
            (deep_get (table preset) (codes "target" ∷ codes "arch" ∷ []) (str (codes "riscv64")))
            (deep_get
              (table preset)
              (codes "rootfs" ∷ codes "compression" ∷ [])
              (str (codes "gzip")))
            (items settings_table))
gen_kernel_config-config_values_example =
    gen_kernel_config-config_values (table preset) settings_table
      (unfold deep_get get text_eq in refl) settings_table-IsSingleLine

gen_variant_kernel_config-config_values_example :
    (text : Text) × (gen_variant_kernel_config (table preset) (codes "minimal") ≡ ok text)
    × (config_values text ≡ settings (items settings_table) [])
gen_variant_kernel_config-config_values_example =
    gen_variant_kernel_config-config_values (table preset) (codes "minimal") settings_table
      (unfold variant_cfg deep_get get text_eq in refl)
      (has_no_break-HasNoBreak (codes "minimal") (unfold has_no_break in refl))
      settings_table-IsSingleLine

-- A Debian preset, whose minimal variant asks for no FPU.
abbrev distro : Fields
distro =
    field (codes "minimal") (table (entry (codes "fpu") (bool false)))
      (entry (codes "rootfs") (table (entry (codes "type") (str (codes "debian")))))

abbrev distro_lines_made : List Text
distro_lines_made =
    base_lines (table distro) (codes "debian") riscv64
    ++ distro_lines (codes "/r") (codes "debian") (some (codes "/p.toml")) riscv64

distro-make_lines :
    make_lines (codes "/r") (table distro) (codes "debian") (some (codes "/p.toml"))
    ≡ ok distro_lines_made
unfolding make_lines arch_make_lines find_arch arch_map is_distro deep_get get text_eq is_text
    hashable
distro-make_lines = refl

distro_lines_made-IsLiteral : All IsLiteral distro_lines_made
unfolding is_literal has_char base_lines distro_lines distro_preset isa_of abi_of deep_get get
    text_eq to_text int_text decimal truthy
distro_lines_made-IsLiteral = ground arith

gen_make_config_distro_example :
    (text : Text) × (gen_make_config
        (codes "/r")
        (table distro)
        (codes "debian")
        (some (codes "/p.toml"))
      ≡ ok text)
    × (is_text (arch_name (table distro)) (codes "riscv64") ≡ true)
    × (is_text (boot_loader (table distro)) (codes "qemu") ≡ true)
    × (make_reads (codes "BITS") text ≡ some (codes "64"))
    × (make_reads (codes "KERNEL_VARIANT") text ≡ some (codes "distro"))
    × (make_reads (codes "RISCV_ISA") text ≡ some (codes "rv64imafdc_zicntr_zicsr_zifencei"))
    × (make_reads (codes "RISCV_ABI") text ≡ some (codes "lp64d"))
gen_make_config_distro_example =
    gen_make_config_distro (codes "/r") (table distro) (codes "debian") (some (codes "/p.toml"))
      (unfold is_distro deep_get get text_eq is_text in refl) distro-make_lines
      distro_lines_made-IsLiteral

abbrev two_packages : List Text
two_packages = codes "htop" ∷ codes "bash" ∷ []

-- A preset that lists its packages behind other settings.
abbrev with_packages : Fields
with_packages = field (codes "target") (table (entry (codes "arch") (str (codes "riscv32")))) (
    entry (codes "buildroot") (
      table (
        field (codes "fpu") (bool false) (
          entry (codes "packages") (
            table (
              field (codes "shell") (str (codes "bash"))
                (entry (codes "include") (arr (listing two_packages)))))))))

gen_buildroot_config-perm_example :
    gen_buildroot_config (codes "/r") (table with_packages)
    ≡ gen_buildroot_config (codes "/r") (
        set_in include_key (arr (listing (codes "bash" ∷ codes "htop" ∷ []))) (table with_packages))
gen_buildroot_config-perm_example =
    gen_buildroot_config-perm (codes "/r") (table with_packages) {ns = two_packages}
      {ms = codes "bash" ∷ codes "htop" ∷ []} (unfold walk get text_eq in refl)
      ∣ Permᴰ.swap {a = codes "htop"} {b = codes "bash"} {l = []} refl refl ∣₁

abbrev inputs : Inputs
inputs = record {
  system_toml = codes "debian.toml";
  stem = codes "debian";
  resolved = codes "/p.toml";
  out_dir = codes ".";
  preset = some (ok distro);
}

abbrev old_disk : Disk
old_disk = (codes ".config.buildroot", codes "stale") ∷ (codes "Makefile", codes "all:") ∷ []

abbrev lines_of : Disk × Result (List Text) → List Text
lines_of (d, ok lines) = lines
lines_of (d, err e) = []

abbrev run : Disk × Result (List Text)
run = main (codes "/r") inputs old_disk

run-ok : run ≡ (run.0, ok (lines_of run))
unfolding main load_preset generate write_configs put write_buildroot print_summary gen_make_config
    make_lines arch_make_lines find_arch arch_map is_distro deep_get get text_eq is_text hashable
    gen_kernel_config kernel_lines user_lines truthy gen_variant_kernel_config variant_lines
    variant_cfg has_key
run-ok = refl

main-IsGenerated_example :
    (fs : Fields) × (load_preset inputs ≡ ok fs) × IsGenerated (codes "/r") inputs fs run.0
main-IsGenerated_example = main-IsGenerated (codes "/r") inputs old_disk run-ok

main_keeps_example :
    lookup (codes "Makefile") (main (codes "/r") inputs old_disk).0
    ≡ lookup (codes "Makefile") old_disk
main_keeps_example =
    main_keeps (codes "/r") inputs (codes "Makefile") old_disk (unfold text_in text_eq in refl)
