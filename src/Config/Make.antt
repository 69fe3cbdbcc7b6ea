-- ===== src/Config/Make.antt =====
-- `ARCH_MAP` and `gen_make_config` of scripts/gen-config.py.
pub mod Reading
pub mod Variables
use linux_build.Base.{
  ℕ, pos, Bool, true, false, not, ◌&&◌, ◌||◌, List, [], ◌∷◌, ◌++◌, Option, none, some, Text, codes,
  text_eq, ◌==◌, decimal, if◌then◌else◌, Result, ok, err, Fault, exited, value_error, bad_value,
  ◌>>=◌, ◌>>◌, require,
}
use linux_build.Toml.{
  Value, null, bool, int, str, other, arr, table, truthy, to_text, is_text, hashable,
}
use linux_build.Config.Lookup.{deep_get}
use linux_build.Config.Kernel.{finish_lines}

pub record Arch : Type 0 where
  pub bits : ℕ
  pub fpu_isa : Text
  pub nofpu_isa : Text
  pub fpu_abi : Text
  pub nofpu_abi : Text

abbrev pub riscv32 : Arch
riscv32 = record {
  bits = 32;
  fpu_isa = codes "rv32imafdc_zicntr_zicsr_zifencei";
  nofpu_isa = codes "rv32imac_zicntr_zicsr_zifencei";
  fpu_abi = codes "ilp32d";
  nofpu_abi = codes "ilp32";
}

abbrev pub riscv64 : Arch
riscv64 = record {
  bits = 64;
  fpu_isa = codes "rv64imafdc_zicntr_zicsr_zifencei";
  nofpu_isa = codes "rv64imac_zicntr_zicsr_zifencei";
  fpu_abi = codes "lp64d";
  nofpu_abi = codes "lp64";
}

-- `ARCH_MAP.get(v)`
unfoldable pub arch_map : Value → Option Arch
arch_map v =
    if is_text v (codes "riscv32")
    then some riscv32
    else if is_text v (codes "riscv64")
    then some riscv64
    else none

-- The lookup, and the exit for an architecture that is not there.
unfoldable pub find_arch : Value → Result Arch
unfolding arch_map
find_arch v = do
  require (hashable v) bad_value
  elim (arch_map v) [
    | none ↦ err (exited (codes "ERROR: unsupported target.arch '" ++ (to_text v ++ codes "'")))
    | some arch ↦ ok arch
  ]

-- `arch["fpu_isa"] if fpu else arch["nofpu_isa"]`, and so for the ABI.
unfoldable pub isa_of : Arch → Value → Text
isa_of arch fpu = if truthy fpu then arch.fpu_isa else arch.nofpu_isa

unfoldable pub abi_of : Arch → Value → Text
abi_of arch fpu = if truthy fpu then arch.fpu_abi else arch.nofpu_abi

abbrev pub minimal_fpu : Value → Value
minimal_fpu cfg = deep_get cfg (codes "minimal" ∷ codes "fpu" ∷ []) (bool false)

abbrev pub buildroot_fpu : Value → Value
buildroot_fpu cfg = deep_get cfg (codes "buildroot" ∷ codes "fpu" ∷ []) (bool true)

abbrev pub rootfs_type : Value → Value
rootfs_type cfg = deep_get cfg (codes "rootfs" ∷ codes "type" ∷ []) (str (codes "initramfs"))

abbrev pub boot_loader : Value → Value
boot_loader cfg = deep_get cfg (codes "boot" ∷ codes "loader" ∷ []) (str (codes "qemu"))

unfoldable pub base_lines : Value → Text → Arch → List Text
base_lines cfg preset_name arch =
    let kver = deep_get cfg (codes "kernel" ∷ codes "version" ∷ []) (str (codes "6.18.51")) in
    let compress = deep_get cfg (codes "rootfs" ∷ codes "compression" ∷ []) (str (codes "gzip")) in
    let mem = deep_get cfg (codes "boot" ∷ codes "memory" ∷ []) (int (pos 1024)) in
    let mem_br = deep_get cfg (codes "buildroot" ∷ codes "memory" ∷ []) mem in
    let timeout = deep_get cfg (codes "boot" ∷ codes "timeout" ∷ []) (int (pos 0)) in
    let ssh_port = deep_get cfg (codes "buildroot" ∷ codes "ssh_port" ∷ []) (int (pos 2222)) in
    codes "# Auto-generated by scripts/gen-config.py — DO NOT EDIT"
    ∷ (codes "# Source: " ++ preset_name)
    ∷ []
    ∷ (codes "SYSTEM_PRESET   := " ++ preset_name)
    ∷ (codes "BITS            := " ++ decimal arch.bits)
    ∷ (codes "KERNEL_VERSION  := " ++ to_text kver)
    ∷ []
    ∷ (codes "# Minimal variant ISA/ABI (derived from [minimal].fpu="
        ++ (to_text (minimal_fpu cfg) ++ codes ")"))
    ∷ (codes "RISCV_ISA       := " ++ isa_of arch (minimal_fpu cfg))
    ∷ (codes "RISCV_ABI       := " ++ abi_of arch (minimal_fpu cfg))
    ∷ []
    ∷ (codes "# Buildroot variant ISA/ABI (derived from [buildroot].fpu="
        ++ (to_text (buildroot_fpu cfg) ++ codes ")"))
    ∷ (codes "RISCV_ISA_BUILDROOT := " ++ isa_of arch (buildroot_fpu cfg))
    ∷ (codes "RISCV_ABI_BUILDROOT := " ++ abi_of arch (buildroot_fpu cfg))
    ∷ []
    ∷ (codes "QEMU_MEM        := " ++ to_text mem)
    ∷ (codes "QEMU_MEM_BUILDROOT := " ++ to_text mem_br)
    ∷ (codes "QEMU_TIMEOUT    := " ++ (if truthy timeout then to_text timeout else []))
    ∷ (codes "SSH_PORT        := " ++ to_text ssh_port)
    ∷ []
    ∷ codes "# Derived from system.toml"
    ∷ (codes "SYSTEM_ROOTFS   := " ++ to_text (rootfs_type cfg))
    ∷ (codes "SYSTEM_COMPRESS := " ++ to_text compress)
    ∷ (codes "SYSTEM_LOADER   := " ++ to_text (boot_loader cfg))
    ∷ []

-- `rootfs_ty in ("alpine", "debian")`
unfoldable pub is_distro : Value → Bool
is_distro v = is_text v (codes "alpine") || is_text v (codes "debian")

-- `preset_path`, or the preset's place under the repository `root`.
unfoldable pub distro_preset : Text → Text → Option Text → Text
distro_preset root preset_name (some path) = path
distro_preset root preset_name none = root ++ (codes "/configs/" ++ (preset_name ++ codes ".toml"))

unfoldable pub distro_lines : Text → Text → Option Text → Arch → List Text
unfolding distro_preset
distro_lines root preset_name preset_path arch =
    (codes "DISTRO_PRESET := " ++ distro_preset root preset_name preset_path)
    ∷ codes "KERNEL_VARIANT := distro"
    ∷ (codes "RISCV_ISA := " ++ arch.fpu_isa)
    ∷ (codes "RISCV_ABI := " ++ arch.fpu_abi)
    ∷ []

-- `root` is `Path(__file__).resolve().parents[1]`.
module _ (root : Text) where
  -- All lines, for a known architecture.
  unfoldable pub arch_make_lines : Value → Text → Option Text → Arch → Result (List Text)
  arch_make_lines cfg preset_name preset_path arch = elim (is_distro (rootfs_type cfg)) [
    | false ↦ ok (base_lines cfg preset_name arch)
    | true ↦ do
      require (arch.bits == 64 && is_text (boot_loader cfg) (codes "qemu"))
          (value_error (codes "distribution rootfs requires riscv64 and boot.loader=qemu"))
      ok (base_lines cfg preset_name arch ++ distro_lines root preset_name preset_path arch)
  ]

  unfoldable pub make_lines : Value → Text → Option Text → Result (List Text)
  make_lines cfg preset_name preset_path = do
    arch ← find_arch (deep_get cfg (codes "target" ∷ codes "arch" ∷ []) (str (codes "riscv64")))
    arch_make_lines cfg preset_name preset_path arch

  unfoldable pub gen_make_config : Value → Text → Option Text → Result Text
  gen_make_config cfg preset_name preset_path = do
    lines ← make_lines cfg preset_name preset_path
    ok (finish_lines lines)
