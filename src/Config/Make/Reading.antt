-- ===== src/Config/Make/Reading.antt =====
-- What `make` reads from the text of `.config.mk`.
use linux_build.Base.{
  ℕ, Bool, true, false, not, ◌||◌, List, [], ◌∷◌, ◌++◌, ◌≡◌, refl, ◌∙◌, ap, arith, Text, codes,
  Option, some, ok, has_char, newline, join, unlines, join-unlines, All,
}
use linux_build.Toml.{Value, is_text}
use linux_build.Config.Kernel.{finish_lines}
use linux_build.Config.Make.{rootfs_type, boot_loader, is_distro, make_lines, gen_make_config}
use linux_build.Config.Make.Variables.{
  assigned, make_variable, make_variable-append, arch_name, make_lines_distro,
}
use linux_build.Release.Order.{split_from}
use linux_build.Release.Order.Parts.{split_from-part}

-- The value that a text gives to a variable, for lines that `make` takes as they stand. A `#` would end a value; the
-- variables asked for below have values without one.
unfoldable pub make_reads : Text → Text → Option Text
make_reads name text = make_variable name (split_from newline [] text)

-- A line that stays one line, is not joined to the next, and holds nothing that `make` expands.
unfoldable pub is_literal : Text → Bool
is_literal l = not (has_char newline l || (has_char b'$' l || has_char b'\\' l))

abbrev pub IsLiteral : Text → Type 0
IsLiteral l = is_literal l ≡ true

IsLiteral-has_char : (l : Text) → IsLiteral l → has_char newline l ≡ false
unfolding is_literal
IsLiteral-has_char l h = ground arith

split_from-unlines :
    (ls : List Text) → All IsLiteral ls → split_from newline [] (unlines ls) ≡ ls ++ ([] ∷ [])
unfolding unlines
split_from-unlines [] h = unfold split_from in refl
split_from-unlines (l ∷ ls) h =
    split_from-part newline l (unlines ls) [] (IsLiteral-has_char l h.0)
    ∙ ap (◌∷◌ l) (split_from-unlines ls h.1)

split_from-finish_lines :
    (l : Text) (ls : List Text)
    → All IsLiteral (l ∷ ls)
    → split_from newline [] (finish_lines (l ∷ ls)) ≡ (l ∷ ls) ++ ([] ∷ [])
unfolding finish_lines
split_from-finish_lines l ls h =
    ap (split_from newline []) (join-unlines l ls) ∙ split_from-unlines (l ∷ ls) h

module _ (c : ℕ) (name : Text) where
  -- `make` reads the lines that were written.
  make_reads-finish_lines :
      (ls : List Text)
      → All IsLiteral ls
      → make_reads (c ∷ name) (finish_lines ls) ≡ make_variable (c ∷ name) ls
  unfolding make_reads
  make_reads-finish_lines [] h = unfold finish_lines join split_from make_variable assigned in refl
  make_reads-finish_lines (l ∷ ls) h =
      ap (make_variable (c ∷ name)) (split_from-finish_lines l ls h)
      ∙ make_variable-append (c ∷ name) (l ∷ ls) ([] ∷ [])
      ∙ (unfold make_variable assigned in refl)

gen_make_config-make_lines :
    (root : Text) (cfg : Value) (name : Text) (path : Option Text) {lines : List Text}
    → make_lines root cfg name path ≡ ok lines
    → gen_make_config root cfg name path ≡ ok (finish_lines lines)
unfolding gen_make_config
gen_make_config-make_lines root cfg name path h = rw h

-- When no line of the fragment holds a line break, a `$` or a backslash: for an Alpine or Debian preset the fragment is
-- generated only on riscv64 under QEMU, and `make` then reads from its text the distro kernel variant with the
-- hard-float ISA and ABI, whatever the minimal variant's settings above them say.
pub gen_make_config_distro :
    (root : Text) (cfg : Value) (name : Text) (path : Option Text) {lines : List Text}
    → is_distro (rootfs_type cfg) ≡ true
    → make_lines root cfg name path ≡ ok lines
    → All IsLiteral lines
    → (text : Text) × (gen_make_config root cfg name path ≡ ok text)
      × (is_text (arch_name cfg) (codes "riscv64") ≡ true)
      × (is_text (boot_loader cfg) (codes "qemu") ≡ true)
      × (make_reads (codes "BITS") text ≡ some (codes "64"))
      × (make_reads (codes "KERNEL_VARIANT") text ≡ some (codes "distro"))
      × (make_reads (codes "RISCV_ISA") text ≡ some (codes "rv64imafdc_zicntr_zicsr_zifencei"))
      × (make_reads (codes "RISCV_ABI") text ≡ some (codes "lp64d"))
gen_make_config_distro root cfg name path {lines} d h l =
    let (is64, loaded, bits, variant, isa, abi) = make_lines_distro root cfg name path d h in
    (
      finish_lines lines,
      gen_make_config-make_lines root cfg name path h,
      is64,
      loaded,
      make_reads-finish_lines _ _ lines l ∙ bits,
      make_reads-finish_lines _ _ lines l ∙ variant,
      make_reads-finish_lines _ _ lines l ∙ isa,
      make_reads-finish_lines _ _ lines l ∙ abi,
    )
