-- ===== src/Config/Kernel/Fragments.antt =====
-- The whole fragments of gen-config.py, read back by `config_values`.
use linux_build.Base.{
  true, false, [], ◌∷◌, ◌++◌, ◌≡◌, refl, ◌∙◌, ap, arith, Text, codes, All, All-append, HasNoBreak,
  has_no_break, all_no_break-HasNoBreak, has_no_break-HasNoBreak, between-HasNoBreak, starts_with,
  is_break, has_char, if◌then◌else◌, ok, Bool-cases, inl, inr,
}
use linux_build.Base.Dict.{Dict, insert}
use linux_build.Toml.{Value, Fields, end, bool, str, table, items, is_text, to_text}
use linux_build.Package.Settings.{split_at, read_line, read_lines, config_values, read_lines-append}
use linux_build.Config.Lookup.{deep_get}
use linux_build.Config.Kernel.{
  kernel_heading, kernel_lines, arch_lines, compression_lines, kernel_arch_configs_rv32,
  gen_kernel_config, variant_cfg, variant_heading, variant_lines, gen_variant_kernel_config,
  finish_lines, kconfig_lines,
}
use linux_build.Config.Kernel.ReadBack.{
  settings, IsSingleLine, IsBlock, IsBlock-nil, IsBlock-append, IsBlock-under, user_lines_lem,
  config_values-finish_lines, prefix,
}

variant_heading-HasNoBreak :
    (variant : Text) → HasNoBreak variant → All HasNoBreak (variant_heading variant)
variant_heading-HasNoBreak variant h = (
  between-HasNoBreak (codes "# Auto-generated ") variant (codes " kernel config — DO NOT EDIT")
      (unfold has_no_break in refl) (unfold has_no_break in refl) h,
  (
    between-HasNoBreak (codes "# Source: system.toml [") variant (codes ".kernel.config]")
        (unfold has_no_break in refl) (unfold has_no_break in refl) h,
    (tt, tt),
  ),
)

IsBlock-variant_heading :
    (variant : Text) → HasNoBreak variant → IsBlock [] (variant_heading variant)
IsBlock-variant_heading variant h = record {
  no_break = variant_heading-HasNoBreak variant h;
  reads = λ d. unfold read_lines read_line starts_with in refl;
}

-- When the variant's name, the keys and the values of the preset's table hold no line break, and the keys no `=`, the
-- fragment of the variant is generated, and `config_values` reads from it exactly the settings of that table: of a
-- setting that is false, for which the fragment has a comment, it reads nothing.
pub gen_variant_kernel_config-config_values :
    (cfg : Value) (variant : Text) (fs : Fields)
    → variant_cfg cfg variant ≡ table fs
    → HasNoBreak variant
    → All IsSingleLine (items fs)
    → (text : Text) × (gen_variant_kernel_config cfg variant ≡ ok text)
      × (config_values text ≡ settings (items fs) [])
unfolding variant_lines gen_variant_kernel_config
gen_variant_kernel_config-config_values cfg variant fs e hv h =
    let (user, generated, block) = user_lines_lem [] fs IsBlock-nil h in
    let whole =
      IsBlock-append [] (items fs) (variant_heading variant) user
        (IsBlock-variant_heading variant hv) block in
    (
      finish_lines (variant_heading variant ++ user),
      rw (e, generated) refl,
      config_values-finish_lines _ _ whole.no_break ∙ whole.reads [],
    )

abbrev compression_entries : Value → Dict Value
compression_entries compress =
    if is_text compress (codes "zstd")
    then (codes "RD_ZSTD", bool true) ∷ (codes "INITRAMFS_COMPRESSION_ZSTD", bool true) ∷ []
    else []

abbrev arch_entries : Value → Dict Value
arch_entries arch_name =
    if is_text arch_name (codes "riscv32") then kernel_arch_configs_rv32 else []

literal-IsBlock :
    (line : Text)
    → has_no_break line ≡ true
    → starts_with line prefix ≡ false
    → IsBlock [] (line ∷ [])
literal-IsBlock line h p = record {
  no_break = (has_no_break-HasNoBreak line h, tt);
  reads = λ d. unfold read_lines read_line in rw p refl;
}

IsBlock-arch_lines : (v : Value) → IsBlock (arch_entries v) (arch_lines v)
unfolding arch_lines
IsBlock-arch_lines v = elim (Bool-cases (is_text v (codes "riscv32"))) [
  | inl e ↦ rw e (
      IsBlock-under (codes "# --- RV32 arch overrides ---" ∷ []) kernel_arch_configs_rv32
        (literal-IsBlock _ (unfold has_no_break in refl) (unfold starts_with in refl))
        (unfold has_char is_break to_text in ground arith))
  | inr e ↦ rw e IsBlock-nil
]

IsBlock-compression_lines : (v : Value) → IsBlock (compression_entries v) (compression_lines v)
unfolding compression_lines
IsBlock-compression_lines v = elim (Bool-cases (is_text v (codes "zstd"))) [
  | inl e ↦ rw e (
      unfold kconfig_lines in
      IsBlock-under (codes "# --- zstd compression ---" ∷ [])
        ((codes "RD_ZSTD", bool true) ∷ (codes "INITRAMFS_COMPRESSION_ZSTD", bool true) ∷ [])
        (literal-IsBlock _ (unfold has_no_break in refl) (unfold starts_with in refl))
        (unfold has_char is_break to_text in ground arith))
  | inr e ↦ rw e IsBlock-nil
]

kernel_heading-HasNoBreak : All HasNoBreak kernel_heading
unfolding has_no_break
kernel_heading-HasNoBreak = all_no_break-HasNoBreak kernel_heading refl

kernel_heading-reads :
    (d : Dict Text)
    → read_lines prefix kernel_heading d ≡ insert (codes "CONFIG_RISCV_ISA_C") (codes "y") d
unfolding read_lines read_line starts_with has_char split_at
kernel_heading-reads d = refl

-- The settings of the shared fragment: compressed instructions, then those of the architecture and
-- of the compression, then the preset's own.
abbrev pub shared_settings : Value → Value → Dict Value → Dict Text
shared_settings arch_name compress user =
    settings (arch_entries arch_name ++ (compression_entries compress ++ user))
      (insert (codes "CONFIG_RISCV_ISA_C") (codes "y") [])

-- The shared fragment is generated for every preset in whose `kernel.config` table keys and values hold no line break,
-- and keys no `=`, and `config_values` reads from it compressed instructions, the RV32 and zstd settings where the
-- preset asks for these, and over them every setting of the table that is not false: one that is false, for which the
-- fragment has a comment, leaves what was read before.
pub gen_kernel_config-config_values :
    (cfg : Value) (fs : Fields)
    → deep_get cfg (codes "kernel" ∷ codes "config" ∷ []) (table end) ≡ table fs
    → All IsSingleLine (items fs)
    → (text : Text) × (gen_kernel_config cfg ≡ ok text)
      × (config_values text
          ≡ shared_settings
              (deep_get cfg (codes "target" ∷ codes "arch" ∷ []) (str (codes "riscv64")))
              (deep_get cfg (codes "rootfs" ∷ codes "compression" ∷ []) (str (codes "gzip")))
              (items fs))
unfolding kernel_lines gen_kernel_config
gen_kernel_config-config_values cfg fs e h =
    let arch = deep_get cfg (codes "target" ∷ codes "arch" ∷ []) (str (codes "riscv64")) in
    let compress = deep_get cfg (codes "rootfs" ∷ codes "compression" ∷ []) (str (codes "gzip")) in
    let heading = codes "# --- User overrides from [kernel.config] ---" in
    let (user, generated, block) =
      user_lines_lem (heading ∷ []) fs
        (literal-IsBlock heading (unfold has_no_break in refl) (unfold starts_with in refl)) h in
    let body =
      IsBlock-append (arch_entries arch) (compression_entries compress ++ items fs)
        (arch_lines arch) (compression_lines compress ++ user) (IsBlock-arch_lines arch)
        (IsBlock-append (compression_entries compress) (items fs) (compression_lines compress) user
          (IsBlock-compression_lines compress) block) in
    let clean = All-append HasNoBreak kernel_heading _ kernel_heading-HasNoBreak body.no_break in
    (
      finish_lines (kernel_heading ++ (arch_lines arch ++ (compression_lines compress ++ user))),
      rw (e, generated) refl,
      config_values-finish_lines _ _ clean
          ∙ read_lines-append prefix kernel_heading _ []
          ∙ ap (read_lines prefix (arch_lines arch ++ (compression_lines compress ++ user)))
              (kernel_heading-reads [])
          ∙ body.reads _,
    )
