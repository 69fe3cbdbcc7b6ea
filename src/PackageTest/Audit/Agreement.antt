-- ===== src/PackageTest/Audit/Agreement.antt =====
-- A firmware that scripts/package-artifacts.py packs is one that scripts/test-packages.py accepts.
use mathlib.Core.Path.{subst}
use linux_build.Package.Settings.{config_values}
use linux_build.Release.Matrix.{arch_of}
use linux_build.Release.Order.{int10}
use linux_build.Base.{
  ok-inj, ◌≡◌, refl, true, Text, ok, >>=-eq-ok, >>-eq-ok, ℤ, leb_ℤ, remove_prefix, codes, pos, ◌+ℤ◌,
}
use linux_build.Base.Bytes.{Bytes}
use linux_build.Base.Image.{Layout, layout_of, kernel_end, find, is_at}
use linux_build.Package.Checks.{
  Inputs, Checked, check, is_basename, check_hz, check_config, check_rootfs, check_layout,
  memory_of, int_of, mebibytes,
}
use linux_build.Package.Publish.{Build, manifest_of}
use linux_build.PackageTest.Audit.{audit_firmware}

-- What the checks of the layout find.
record IsLaidOut (i : Inputs) (layout : Layout) (memory : ℤ) : Type 0 where
  read : layout_of i.image ≡ ok layout
  placed : is_at layout.text_offset (find i.image i.fw_payload) ≡ true
  below : leb_ℤ (pos (kernel_end layout i.image)) i.fdt_offset ≡ true
  fits : leb_ℤ (i.fdt_offset +ℤ pos 65536) (mebibytes memory) ≡ true

check_layout-IsLaidOut :
    (i : Inputs) {found : Layout × ℤ} → check_layout i ≡ ok found → IsLaidOut i found.0 found.1
unfolding check_layout
check_layout-IsLaidOut i h =
    let (layout, read, h₁) = >>=-eq-ok (layout_of i.image) _ h in
    let (placed, h₂) = >>-eq-ok (is_at layout.text_offset (find i.image i.fw_payload)) _ _ h₁ in
    let (value, remembered, h₃) = >>=-eq-ok (memory_of i) _ h₂ in
    let (below, h₄) = >>-eq-ok (leb_ℤ (pos (kernel_end layout i.image)) i.fdt_offset) _ _ h₃ in
    let (memory, known, h₅) = >>=-eq-ok (int_of value) _ h₄ in
    let (fits, h₆) = >>-eq-ok (leb_ℤ (i.fdt_offset +ℤ pos 65536) (mebibytes memory)) _ _ h₅ in
    subst (λ found. IsLaidOut i found.0 found.1) (ok-inj h₆)
      (record { read = read; placed = placed; below = below; fits = fits })

check-IsLaidOut :
    (sha : Bytes → Text) (i : Inputs) {c : Checked}
    → check sha i ≡ ok c
    → IsLaidOut i c.layout c.memory × (c.payload_offset ≡ c.layout.text_offset)
unfolding check
check-IsLaidOut sha i h =
    let (named, h₁) = >>-eq-ok (is_basename i.name) _ _ h in
    let (arch, a, h₂) = >>=-eq-ok (arch_of i.preset) _ h₁ in
    let (bits, b, h₃) = >>=-eq-ok (int10 (remove_prefix (codes "riscv") arch)) _ h₂ in
    let (hz, z, h₄) = >>=-eq-ok (check_hz i.preset (config_values i.kernel_config)) _ h₃ in
    let (u, k, h₅) = >>=-eq-ok (check_config i (config_values i.kernel_config)) _ h₄ in
    let (v, r, h₆) = >>=-eq-ok (check_rootfs sha i) _ h₅ in
    let (found, l, h₇) = >>=-eq-ok (check_layout i) _ h₆ in
    subst (λ c. IsLaidOut i c.layout c.memory × (c.payload_offset ≡ c.layout.text_offset))
      (ok-inj h₇) (check_layout-IsLaidOut i l, refl)

-- Whatever kernel and firmware `package-artifacts.py` accepts, with the manifest that it writes for
-- them the audit finds the same kernel in the firmware, and both it and the device tree in the memory.
pub audit_firmware_accepts :
    (sha : Bytes → Text) (i : Inputs) (b : Build) {c : Checked}
    → check sha i ≡ ok c
    → audit_firmware (manifest_of sha i c b) i.image i.fw_payload ≡ ok tt
unfolding audit_firmware manifest_of
audit_firmware_accepts sha i b {c = c} h =
    let (l, offset) = check-IsLaidOut sha i h in rw (offset, l.placed, l.read, l.below, l.fits)
