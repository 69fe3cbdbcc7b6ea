-- ===== src/Config/Script.antt =====
-- `print_summary` and `main` of scripts/gen-config.py. The output directory is a dictionary of the
-- texts of its files, and an action that fails leaves what was written before it.
pub mod Files
pub mod Frame
use linux_build.Base.{
  ℕ, Bool, true, false, not, ◌&&◌, ◌||◌, List, [], ◌∷◌, ◌++◌, map, Option, none, some, Text, codes,
  text_eq, join, decimal, if◌then◌else◌, Result, ok, err, bad_value, exited, value_error,
}
use linux_build.Base.Dict.{Dict, insert, erase}
use linux_build.Toml.{
  Value, Fields, nil, null, bool, str, arr, table, truthy, to_text, is_text, hashable, texts_of,
  has_key,
}
use linux_build.Config.Lookup.{deep_get}
use linux_build.Config.Kernel.{gen_kernel_config, gen_variant_kernel_config}
use linux_build.Config.Make.{Arch, arch_map, isa_of, is_distro, gen_make_config}
use linux_build.Config.Buildroot.{gen_buildroot_config}

abbrev pub Disk : Type 0
Disk = Dict Text

abbrev pub M : Type 0 → Type 0
M A = Disk → Disk × Result A

infixl 5 ◌>>=◌ ◌>>◌
abbrev pub ◌>>=◌ : {A B : Type 0} → M A → (A → M B) → M B
◌>>=◌ m f d = let (d', r) = m d in elim r [ ok a ↦ f a d' | err e ↦ (d', err e) ]

abbrev pub ◌>>◌ : {B : Type 0} → M (Unit {0}) → M B → M B
m >> k = m >>= λ _. k

abbrev pub lift : {A : Type 0} → Result A → M A
lift r d = (d, r)

-- `(out / name).write_text(text)`
abbrev pub write_text : Text → Text → M (Unit {0})
write_text name text d = (insert name text d, ok tt)

-- `(out / name).write_text(generate(...))`: nothing is written if the generator fails.
unfoldable pub put : Text → Result Text → M (Unit {0})
put name generated = do text ← lift generated; write_text name text

-- `if p.exists(): p.unlink()`
abbrev pub remove : Text → M (Unit {0})
remove name d = (erase name d, ok tt)

-- `out_dir / name`, for a normal path `out_dir`.
path_join : Text → Text → Text
path_join out_dir name =
    if text_eq out_dir (codes ".")
    then name
    else if text_eq out_dir (codes "/")
    then b'/' ∷ name
    else out_dir ++ (b'/' ∷ name)

-- `ARCH_MAP.get(arch, {}).get(field, "?")`
arch_text : Option Arch → (Arch → Text) → Text
arch_text none f = codes "?"
arch_text (some arch) f = f arch

on_off : Value → Text
on_off v = if truthy v then codes "on" else codes "off"

packages_line : Value → Result (List Text)
packages_line pkgs = elim (truthy pkgs) [
  | false ↦ ok []
  | true ↦ elim (texts_of pkgs) [
    | ok names ↦ ok ((codes "  Packages:   " ++ join (codes ", ") names) ∷ [])
    | err e ↦ err e
  ]
]

distro_summary : Text → Text → Text → List Text
distro_summary out_dir distro kver =
    (codes "  Userspace:  " ++ (distro ++ codes ", RV64GC/lp64d, persistent ext4"))
    ∷ (codes "  Kernel:     " ++ kver)
    ∷ (codes "  Generated:  "
        ++ (path_join out_dir (codes ".config.mk")
            ++ (codes ", "
                ++ (path_join out_dir (codes ".config.kernel")
                    ++ (codes ", " ++ path_join out_dir (codes ".config.kernel.distro"))))))
    ∷ []

indented : Text → Text → Text
indented out_dir name = codes "              " ++ path_join out_dir name

-- The lines that `print_summary` prints.
unfoldable pub print_summary : Fields → Text → Result (List Text)
unfolding path_join arch_text on_off packages_line distro_summary indented
print_summary fs out_dir =
    let cfg = table fs in
    let arch = deep_get cfg (codes "target" ∷ codes "arch" ∷ []) (str (codes "?")) in
    let kver = to_text (deep_get cfg (codes "kernel" ∷ codes "version" ∷ []) (str (codes "?"))) in
    let pkgs =
      deep_get cfg (codes "buildroot" ∷ codes "packages" ∷ codes "include" ∷ []) (arr nil) in
    let minimal_fpu = deep_get cfg (codes "minimal" ∷ codes "fpu" ∷ []) (bool false) in
    let buildroot_fpu = deep_get cfg (codes "buildroot" ∷ codes "fpu" ∷ []) (bool true) in
    let found = arch_map arch in
    let target =
      codes "  Target:     "
      ++ (to_text arch ++ (codes " (rv" ++ (arch_text found (λ a. decimal a.bits) ++ codes ")"))) in
    let distro = deep_get cfg (codes "rootfs" ∷ codes "type" ∷ []) null in
    elim (hashable arch) [
      | false ↦ err bad_value
      | true ↦ elim (is_distro distro) [
        | true ↦ ok (target ∷ distro_summary out_dir (to_text distro) kver)
        | false ↦ elim (packages_line pkgs) [
          | err e ↦ err e
          | ok packages ↦ ok (
              target
              ∷ (codes "  Minimal:    "
                  ++ (arch_text found (λ a. isa_of a minimal_fpu)
                      ++ (codes " (FPU=" ++ (on_off minimal_fpu ++ codes ")"))))
              ∷ (codes "  Buildroot:  "
                  ++ (arch_text found (λ a. isa_of a buildroot_fpu)
                      ++ (codes " (FPU=" ++ (on_off buildroot_fpu ++ codes ")"))))
              ∷ (codes "  Kernel:     " ++ kver)
              ∷ (packages
                  ++ ((codes "  Generated:  " ++ path_join out_dir (codes ".config.mk"))
                      ∷ indented out_dir (codes ".config.kernel")
                      ∷ indented out_dir (codes ".config.kernel.minimal")
                      ∷ indented out_dir (codes ".config.kernel.buildroot")
                      ∷ (if has_key (codes "buildroot") fs
                          then indented out_dir (codes ".config.buildroot") ∷ []
                          else []))))
        ]
      ]
    ]

-- What `main` is given: its arguments as texts, and the parsed preset, `none` if there is no file.
-- A preset that `tomllib` rejects is an error.
pub record Inputs : Type 0 where
  pub system_toml : Text
  pub stem : Text
  pub resolved : Text
  pub out_dir : Text
  pub preset : Option (Result Fields)

-- The preset, or the exit without one.
unfoldable pub load_preset : Inputs → Result Fields
load_preset i = elim i.preset [
  | none ↦ err (exited (codes "ERROR: " ++ (i.system_toml ++ codes " not found")))
  | some parsed ↦ parsed
]

module _ (root : Text) where
  -- The last step: write the Buildroot fragment, or remove a stale one.
  unfoldable pub write_buildroot : Fields → M (Unit {0})
  write_buildroot fs = elim (has_key (codes "buildroot") fs) [
    | true ↦ put (codes ".config.buildroot") (gen_buildroot_config root (table fs))
    | false ↦ remove (codes ".config.buildroot")
  ]

  unfoldable pub write_configs : Inputs → Fields → M (Unit {0})
  write_configs i fs = do
    put (codes ".config.mk") (gen_make_config root (table fs) i.stem (some i.resolved))
    put (codes ".config.kernel") (gen_kernel_config (table fs))
    put (codes ".config.kernel.minimal") (gen_variant_kernel_config (table fs) (codes "minimal"))
    put (codes ".config.kernel.buildroot")
        (gen_variant_kernel_config (table fs) (codes "buildroot"))
    put (codes ".config.kernel.distro") (gen_variant_kernel_config (table fs) (codes "distro"))
    write_buildroot fs

  -- `main` behind the parsing of the preset.
  unfoldable pub generate : Inputs → Fields → M (List Text)
  generate i fs = do
    write_configs i fs
    summary ← lift (print_summary fs i.out_dir)
    lift (ok ((codes "✓ Configuration generated from " ++ i.system_toml) ∷ summary))

  -- The lines printed, with the output directory as it is left.
  unfoldable pub main : Inputs → M (List Text)
  main i = do fs ← lift (load_preset i); generate i fs
