-- ===== src/Config/Kernel.antt =====
-- The kernel fragments of scripts/gen-config.py: `kconfig_line`, `gen_kernel_config` and
-- `gen_variant_kernel_config`.
pub mod ReadBack
pub mod Fragments
use linux_build.Base.{
  Bool, true, false, List, [], ◌∷◌, ◌++◌, map, Option, none, some, Text, codes, text_eq,
  starts_with, join, if◌then◌else◌, Result, ok, err, bad_value, ◌>>=◌, newline,
}
use linux_build.Base.Dict.{Dict}
use linux_build.Toml.{
  Value, Fields, end, null, bool, int, str, other, arr, table, truthy, items, int_text, to_text,
  is_text,
}
use linux_build.Config.Lookup.{deep_get}

-- `"\n".join(lines) + "\n"`, which every generator returns.
unfoldable pub finish_lines : List Text → Text
unfolding join
finish_lines lines = join (newline ∷ []) lines ++ (newline ∷ [])

-- `full` of `kconfig_line`
unfoldable pub full_key : Text → Text
full_key key = if starts_with key (codes "CONFIG_") then key else codes "CONFIG_" ++ key

unfoldable pub kconfig_line : Text → Value → Text
kconfig_line key (bool true) = full_key key ++ codes "=y"
kconfig_line key (bool false) = codes "# " ++ (full_key key ++ codes " is not set")
kconfig_line key (int n) = full_key key ++ (b'=' ∷ int_text n)
kconfig_line key v = full_key key ++ (codes "=\"" ++ (to_text v ++ codes "\""))

-- The loop over `cfg.items()`.
unfoldable pub kconfig_lines : Dict Value → List Text
kconfig_lines [] = []
kconfig_lines ((k, v) ∷ rest) = kconfig_line k v ∷ kconfig_lines rest

-- `v.items()`, which only a table has.
unfoldable pub entries_of : Value → Result (Dict Value)
entries_of (table fs) = ok (items fs)
entries_of _ = err bad_value

-- `KERNEL_ARCH_CONFIGS_RV32`
abbrev pub kernel_arch_configs_rv32 : Dict Value
kernel_arch_configs_rv32 =
    (codes "NONPORTABLE", bool true)
    ∷ (codes "ARCH_RV64I", bool false)
    ∷ (codes "ARCH_RV32I", bool true)
    ∷ []

unfoldable pub arch_lines : Value → List Text
arch_lines arch_name =
    if is_text arch_name (codes "riscv32")
    then codes "# --- RV32 arch overrides ---"
      ∷ (kconfig_lines kernel_arch_configs_rv32 ++ ([] ∷ []))
    else []

unfoldable pub compression_lines : Value → List Text
compression_lines compress =
    if is_text compress (codes "zstd")
    then codes "# --- zstd compression ---"
      ∷ kconfig_line (codes "RD_ZSTD") (bool true)
      ∷ kconfig_line (codes "INITRAMFS_COMPRESSION_ZSTD") (bool true)
      ∷ []
      ∷ []
    else []

-- `if user_cfg:` and its loop, under a heading.
unfoldable pub user_lines : List Text → Value → Result (List Text)
user_lines heading user_cfg = elim (truthy user_cfg) [
  | false ↦ ok []
  | true ↦ do entries ← entries_of user_cfg; ok (heading ++ (kconfig_lines entries ++ ([] ∷ [])))
]

abbrev pub kernel_heading : List Text
kernel_heading =
    codes "# Auto-generated shared kernel config — DO NOT EDIT"
    ∷ codes "# Source: system.toml  ->  applied via scripts/config"
    ∷ []
    ∷ codes "# All supported RV32/RV64 targets implement compressed instructions."
    ∷ codes "CONFIG_RISCV_ISA_C=y"
    ∷ []
    ∷ []

unfoldable pub kernel_lines : Value → Result (List Text)
kernel_lines cfg = do
  let arch_name = deep_get cfg (codes "target" ∷ codes "arch" ∷ []) (str (codes "riscv64"))
  let user_cfg = deep_get cfg (codes "kernel" ∷ codes "config" ∷ []) (table end)
  let compress = deep_get cfg (codes "rootfs" ∷ codes "compression" ∷ []) (str (codes "gzip"))
  user ← user_lines (codes "# --- User overrides from [kernel.config] ---" ∷ []) user_cfg
  ok (kernel_heading ++ (arch_lines arch_name ++ (compression_lines compress ++ user)))

unfoldable pub gen_kernel_config : Value → Result Text
gen_kernel_config cfg = do lines ← kernel_lines cfg; ok (finish_lines lines)

-- `[<variant>.kernel.config]`, as a dotted key or as a nested table.
unfoldable pub variant_cfg : Value → Text → Value
variant_cfg cfg variant = elim (deep_get cfg (variant ∷ codes "kernel.config" ∷ []) null) [
  | null ↦ deep_get cfg (variant ∷ codes "kernel" ∷ codes "config" ∷ []) (table end)
  | other_value ↦ other_value
]

abbrev pub variant_heading : Text → List Text
variant_heading variant =
    (codes "# Auto-generated " ++ (variant ++ codes " kernel config — DO NOT EDIT"))
    ∷ (codes "# Source: system.toml [" ++ (variant ++ codes ".kernel.config]"))
    ∷ []
    ∷ []

unfoldable pub variant_lines : Value → Text → Result (List Text)
variant_lines cfg variant = do
  user ← user_lines [] (variant_cfg cfg variant)
  ok (variant_heading variant ++ user)

unfoldable pub gen_variant_kernel_config : Value → Text → Result Text
gen_variant_kernel_config cfg variant = do
  lines ← variant_lines cfg variant
  ok (finish_lines lines)
