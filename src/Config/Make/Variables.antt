-- ===== src/Config/Make/Variables.antt =====
-- What `make` reads from the lines of `.config.mk`.
use linux_build.Base.{
  true, false, ◌&&◌, List, [], ◌∷◌, ◌++◌, ◌≡◌, refl, ◌∙◌, ap, arith, Text, codes, Bool-cases, ◌⊎◌,
  inl, inr, Option, none, some, ◌==◌, if◌then◌else◌, ok, >>=-eq-ok, decimal,
}
use linux_build.Toml.{Value, str, truthy, is_text}
use linux_build.Config.Lookup.{deep_get}
use linux_build.Config.Make.{
  Arch, riscv32, riscv64, arch_map, find_arch, isa_of, abi_of, minimal_fpu, buildroot_fpu,
  rootfs_type, boot_loader, base_lines, is_distro, distro_lines, arch_make_lines, make_lines,
}

skip_blanks : Text → Text
skip_blanks [] = []
skip_blanks (c ∷ s) = if c == b' ' then skip_blanks s else c ∷ s

after_sign : Text → Option Text
after_sign (c ∷ d ∷ s) = if c == b':' && d == b'=' then some (skip_blanks s) else none
after_sign _ = none

-- The value that a line gives to `name`: `name := value`, with any blanks around the sign.
unfoldable pub assigned : Text → Text → Option Text
unfolding skip_blanks after_sign
assigned [] line = after_sign (skip_blanks line)
assigned (n ∷ name) [] = none
assigned (n ∷ name) (c ∷ line) = if n == c then assigned name line else none

-- The last assignment counts.
unfoldable pub make_variable : Text → List Text → Option Text
unfolding assigned
make_variable name [] = none
make_variable name (line ∷ lines) = elim (make_variable name lines) [
  | some value ↦ some value
  | none ↦ assigned name line
]

find_arch_cases :
    (v : Value) {arch : Arch}
    → find_arch v ≡ ok arch
    → ((is_text v (codes "riscv32") ≡ true) × (arch ≡ riscv32))
      ⊎ ((is_text v (codes "riscv64") ≡ true) × (arch ≡ riscv64))
unfolding find_arch arch_map
find_arch_cases v h = ground arith

find_arch-arch_map : (v : Value) {arch : Arch} → find_arch v ≡ ok arch → arch_map v ≡ some arch
unfolding find_arch
find_arch-arch_map v h = ground arith

wide_arch :
    (v : Value) {arch : Arch}
    → find_arch v ≡ ok arch
    → (arch.bits == 64) ≡ true
    → (is_text v (codes "riscv64") ≡ true) × (arch ≡ riscv64)
unfolding find_arch arch_map
wide_arch v h w = ground arith

-- What `make` sees of a fragment without distribution lines.
record Base (cfg : Value) (arch : Arch) (lines : List Text) : Type 0 where
  bits : make_variable (codes "BITS") lines ≡ some (decimal arch.bits)
  isa : make_variable (codes "RISCV_ISA") lines ≡ some (isa_of arch (minimal_fpu cfg))
  abi : make_variable (codes "RISCV_ABI") lines ≡ some (abi_of arch (minimal_fpu cfg))
  isa_buildroot :
      make_variable (codes "RISCV_ISA_BUILDROOT") lines ≡ some (isa_of arch (buildroot_fpu cfg))
  no_variant : make_variable (codes "KERNEL_VARIANT") lines ≡ none

skip_blanks-isa_of32 : (fpu : Value) → skip_blanks (isa_of riscv32 fpu) ≡ isa_of riscv32 fpu
unfolding isa_of skip_blanks
skip_blanks-isa_of32 fpu = elim (Bool-cases (truthy fpu)) [ inl e ↦ rw e | inr e ↦ rw e ]

skip_blanks-isa_of64 : (fpu : Value) → skip_blanks (isa_of riscv64 fpu) ≡ isa_of riscv64 fpu
unfolding isa_of skip_blanks
skip_blanks-isa_of64 fpu = elim (Bool-cases (truthy fpu)) [ inl e ↦ rw e | inr e ↦ rw e ]

skip_blanks-abi_of32 : (fpu : Value) → skip_blanks (abi_of riscv32 fpu) ≡ abi_of riscv32 fpu
unfolding abi_of skip_blanks
skip_blanks-abi_of32 fpu = elim (Bool-cases (truthy fpu)) [ inl e ↦ rw e | inr e ↦ rw e ]

skip_blanks-abi_of64 : (fpu : Value) → skip_blanks (abi_of riscv64 fpu) ≡ abi_of riscv64 fpu
unfolding abi_of skip_blanks
skip_blanks-abi_of64 fpu = elim (Bool-cases (truthy fpu)) [ inl e ↦ rw e | inr e ↦ rw e ]

base_lines-riscv32 : (cfg : Value) (name : Text) → Base cfg riscv32 (base_lines cfg name riscv32)
unfolding base_lines make_variable decimal
base_lines-riscv32 cfg name = record {
  bits = refl;
  isa = ap some (skip_blanks-isa_of32 (minimal_fpu cfg));
  abi = ap some (skip_blanks-abi_of32 (minimal_fpu cfg));
  isa_buildroot = ap some (skip_blanks-isa_of32 (buildroot_fpu cfg));
  no_variant = refl;
}

base_lines-riscv64 : (cfg : Value) (name : Text) → Base cfg riscv64 (base_lines cfg name riscv64)
unfolding base_lines make_variable decimal
base_lines-riscv64 cfg name = record {
  bits = refl;
  isa = ap some (skip_blanks-isa_of64 (minimal_fpu cfg));
  abi = ap some (skip_blanks-abi_of64 (minimal_fpu cfg));
  isa_buildroot = ap some (skip_blanks-isa_of64 (buildroot_fpu cfg));
  no_variant = refl;
}

base_lines_lem :
    (cfg : Value) (name : Text) (v : Value) (arch : Arch)
    → find_arch v ≡ ok arch
    → Base cfg arch (base_lines cfg name arch)
base_lines_lem cfg name v arch h = elim (find_arch_cases v h) [
  | inl (e, is) ↦ rw is (base_lines-riscv32 cfg name)
  | inr (e, is) ↦ rw is (base_lines-riscv64 cfg name)
]

abbrev pub or_else {ℓ} : {A : Type ℓ} → Option A → Option A → Option A
or_else (some a) o = some a
or_else none o = o

pub make_variable-append :
    (name : Text) (ls ms : List Text)
    → make_variable name (ls ++ ms) ≡ or_else (make_variable name ms) (make_variable name ls)
unfolding make_variable
make_variable-append name [] ms = ground arith
make_variable-append name (l ∷ ls) ms = ground (arith, make_variable-append name ls ms)

abbrev pub arch_name : Value → Value
arch_name cfg = deep_get cfg (codes "target" ∷ codes "arch" ∷ []) (str (codes "riscv64"))

module _ (root : Text) where
  arch_make_lines_distro :
      (cfg : Value) (name : Text) (path : Option Text) (arch : Arch) {lines : List Text}
      → is_distro (rootfs_type cfg) ≡ true
      → arch_make_lines root cfg name path arch ≡ ok lines
      → ((arch.bits == 64) ≡ true)
        × (is_text (boot_loader cfg) (codes "qemu") ≡ true)
        × (lines ≡ base_lines cfg name arch ++ distro_lines root name path arch)
  unfolding arch_make_lines
  arch_make_lines_distro cfg name path arch d h = ground arith

  arch_make_lines_plain :
      (cfg : Value) (name : Text) (path : Option Text) (arch : Arch) {lines : List Text}
      → is_distro (rootfs_type cfg) ≡ false
      → arch_make_lines root cfg name path arch ≡ ok lines
      → lines ≡ base_lines cfg name arch
  unfolding arch_make_lines
  arch_make_lines_plain cfg name path arch d h = ground arith

  distro_variables :
      (name : Text) (path : Option Text) (ls : List Text)
      → let lines = ls ++ distro_lines root name path riscv64 in
        (make_variable (codes "KERNEL_VARIANT") lines ≡ some (codes "distro"))
        × (make_variable (codes "RISCV_ISA") lines
            ≡ some (codes "rv64imafdc_zicntr_zicsr_zifencei"))
        × (make_variable (codes "RISCV_ABI") lines ≡ some (codes "lp64d"))
        × (make_variable (codes "BITS") lines ≡ make_variable (codes "BITS") ls)
  distro_variables name path ls =
      let added = distro_lines root name path riscv64 in
      (
        rw make_variable-append (unfold make_variable distro_lines in refl),
        rw make_variable-append (unfold make_variable distro_lines in refl),
        rw make_variable-append (unfold make_variable distro_lines in refl),
        rw make_variable-append (unfold make_variable distro_lines in refl),
      )

  distro_result :
      (cfg : Value) (name : Text) (path : Option Text) (arch : Arch)
      → find_arch (arch_name cfg) ≡ ok arch
      → (arch.bits == 64) ≡ true
      → let lines = base_lines cfg name arch ++ distro_lines root name path arch in
        (is_text (arch_name cfg) (codes "riscv64") ≡ true)
        × ((make_variable (codes "BITS") lines ≡ some (codes "64"))
            × (make_variable (codes "KERNEL_VARIANT") lines ≡ some (codes "distro"))
            × (make_variable (codes "RISCV_ISA") lines
                ≡ some (codes "rv64imafdc_zicntr_zicsr_zifencei"))
            × (make_variable (codes "RISCV_ABI") lines ≡ some (codes "lp64d")))
  distro_result cfg name path arch found wide =
      let (is64, e) = wide_arch (arch_name cfg) found wide in
      let (variant, isa, abi, bits) = distro_variables name path (base_lines cfg name riscv64) in
      rw e (
        is64,
        (bits ∙ (base_lines-riscv64 cfg name).bits ∙ (unfold decimal in refl), variant, isa, abi),
      )

  -- For an Alpine or Debian preset the generated fragment is accepted only on riscv64 under QEMU,
  -- and `make` then reads the distro kernel variant with the hard-float ISA and ABI, whatever the
  -- minimal variant's settings above them say.
  pub make_lines_distro :
      (cfg : Value) (name : Text) (path : Option Text) {lines : List Text}
      → is_distro (rootfs_type cfg) ≡ true
      → make_lines root cfg name path ≡ ok lines
      → (is_text (arch_name cfg) (codes "riscv64") ≡ true)
        × (is_text (boot_loader cfg) (codes "qemu") ≡ true)
        × (make_variable (codes "BITS") lines ≡ some (codes "64"))
        × (make_variable (codes "KERNEL_VARIANT") lines ≡ some (codes "distro"))
        × (make_variable (codes "RISCV_ISA") lines
            ≡ some (codes "rv64imafdc_zicntr_zicsr_zifencei"))
        × (make_variable (codes "RISCV_ABI") lines ≡ some (codes "lp64d"))
  unfolding make_lines
  make_lines_distro cfg name path d h =
      let (arch, found, rest) = >>=-eq-ok (find_arch (arch_name cfg)) _ h in
      let (wide, loaded, made) = arch_make_lines_distro cfg name path arch d rest in
      let (is64, read) = distro_result cfg name path arch found wide in
      (is64, loaded, rw made read.0, rw made read.1, rw made read.2, rw made read.3)

  -- For every other preset that is accepted, `make` reads the word size of its architecture, the
  -- ISA and ABI by the variants' `fpu` settings, and no kernel variant.
  pub make_lines_plain :
      (cfg : Value) (name : Text) (path : Option Text) {lines : List Text}
      → is_distro (rootfs_type cfg) ≡ false
      → make_lines root cfg name path ≡ ok lines
      → (arch : Arch) × (arch_map (arch_name cfg) ≡ some arch)
        × (make_variable (codes "BITS") lines ≡ some (decimal arch.bits))
        × (make_variable (codes "RISCV_ISA") lines ≡ some (isa_of arch (minimal_fpu cfg)))
        × (make_variable (codes "RISCV_ABI") lines ≡ some (abi_of arch (minimal_fpu cfg)))
        × (make_variable (codes "RISCV_ISA_BUILDROOT") lines
            ≡ some (isa_of arch (buildroot_fpu cfg)))
        × (make_variable (codes "KERNEL_VARIANT") lines ≡ none)
  unfolding make_lines
  make_lines_plain cfg name path d h =
      let (arch, found, rest) = >>=-eq-ok (find_arch (arch_name cfg)) _ h in
      let b = base_lines_lem cfg name (arch_name cfg) arch found in
      rw (arch_make_lines_plain cfg name path arch d rest)
        (arch, find_arch-arch_map _ found, b.bits, b.isa, b.abi, b.isa_buildroot, b.no_variant)
