-- ===== src/Distro/Script/Accepted.antt =====
-- A package that scripts/package-distro.py writes is one that scripts/distro_runtime.py accepts.
use linux_build.Base.{
  true, ◌&&◌, List, [], ◌∷◌, some, pos, Text, codes, text_eq, text_eq_iff, text_eq_refl, text_in,
  splitlines, &&_iff, ok, >>=-eq-ok, >>-eq-ok, require-eq-ok, ok-inj, ◌≡◌, refl, sym, ap, ◌∙◌, All,
}
use linux_build.Base.Dict.{Dict, lookup}
use linux_build.Toml.{table}
use linux_build.Release.Matrix.{distros, subscript, text_of, arch_of, package_name}
use linux_build.Package.Publish.{hashes}
use linux_build.Gate.Packages.{at_key}
use linux_build.Distro.Audit.{
  DiskOrigin, audited_lines, has_lines, same_hash, audit_origin, some_packages, audit_record,
}
use linux_build.Distro.Script.{
  Inputs, Writers, CheckedDisk, required_settings, all_lines, check_origin, check_kernel,
  check_release, staged_disk, distro_manifest_of,
}

all_lines-All :
    (ls config : List Text) → all_lines ls config ≡ true → All (λ l. text_in l config ≡ true) ls
unfolding all_lines
all_lines-All [] config h = tt
all_lines-All (l ∷ ls) config h =
    let both = (&&_iff (text_in l config) (all_lines ls config)).0 h in
    (both.0, all_lines-All ls config both.1)

All-has_lines :
    (ls config : List Text) → All (λ l. text_in l config ≡ true) ls → has_lines ls config ≡ ok tt
unfolding has_lines
All-has_lines [] config h = refl
All-has_lines (l ∷ ls) config h = rw h.0 (All-has_lines ls config h.1)

-- With the setting that only the audit asks for, the lines that were required are those that it asks for.
required-audited :
    (config : List Text)
    → all_lines required_settings config ≡ true
    → text_in (codes "CONFIG_HZ_100=y") config ≡ true
    → has_lines audited_lines config ≡ ok tt
required-audited config h hz =
    let a : All (λ l. text_in l config ≡ true) required_settings =
      all_lines-All required_settings config h in
    All-has_lines audited_lines config (
      a.1.1.1.0,
      (
        hz,
        (
          a.1.1.0,
          (
            a.0,
            (
              a.1.0,
              (
                a.1.1.1.1.0,
                (a.1.1.1.1.1.0, (a.1.1.1.1.1.1.0, (a.1.1.1.1.1.1.1.0, (a.1.1.1.1.1.1.1.1.0, tt)))),
              ),
            ),
          ),
        ),
      ),
    )

module _ (w : Writers) where
  -- What the checks of a package have found.
  record IsOriginal (i : Inputs) (r : DiskOrigin) (c : CheckedDisk) : Type 0 where
    disk : w.sha i.disk ≡ r.rootfs_sha256
    image : w.sha i.image ≡ r.kernel_sha256
    firmware : w.sha i.firmware ≡ r.firmware_sha256
    build_log : w.sha i.build_log ≡ r.build_log_sha256
    lines : all_lines required_settings (splitlines (w.decode i.config)) ≡ true

  check_release-IsOriginal :
      (i : Inputs) {c : CheckedDisk} {r : DiskOrigin}
      → w.read_origin i.disk_record ≡ ok r
      → check_release w i ≡ ok c
      → IsOriginal i r c
  unfolding check_release check_origin check_kernel
  check_release-IsOriginal i {c} {r} read h =
      let (fs, e₁, h₁) = >>=-eq-ok (subscript (table i.preset.cfg) (codes "rootfs")) _ h in
      let (kind, e₂, h₂) = >>=-eq-ok (subscript fs (codes "type")) _ h₁ in
      let (arch, e₃, h₃) = >>=-eq-ok (arch_of i.preset.cfg) _ h₂ in
      let (is_arch, h₄) = >>-eq-ok (text_eq arch (codes "riscv64")) _ _ h₃ in
      let (variant, e₅, h₅) = >>=-eq-ok (text_of kind) _ h₄ in
      let (known, h₆) = >>-eq-ok (text_in variant distros) _ _ h₅ in
      let (name, e₇, h₇) = >>=-eq-ok (package_name i.preset variant) _ h₆ in
      let (origin, e₈, h₈) = >>=-eq-ok (w.read_origin i.disk_record) _ h₇ in
      let (u, e₉, h₉) = >>=-eq-ok (check_origin w i origin) _ h₈ in
      let (version, e₁₀, h₁₀) = >>=-eq-ok (check_kernel w i) _ h₉ in
      let same : origin ≡ r = ok-inj (sym e₈ ∙ read) in
      let (disk, k₁) = >>-eq-ok (text_eq (w.sha i.disk) origin.rootfs_sha256) _ _ e₉ in
      let k₂ =
        require-eq-ok
          (text_eq (w.sha i.image) origin.kernel_sha256
            && text_eq (w.sha i.firmware) origin.firmware_sha256
            && text_eq (w.sha i.build_log) origin.build_log_sha256)
          _ k₁ in
      let (k₃, log) = (&&_iff _ _).0 k₂ in
      let (image, firmware) = (&&_iff _ _).0 k₃ in
      let (lines, k₄) =
        >>-eq-ok (all_lines required_settings (splitlines (w.decode i.config))) _ _ e₁₀ in
      record {
        disk = (text_eq_iff _ _).0 disk ∙ ap (λ x. x.rootfs_sha256) same;
        image = (text_eq_iff _ _).0 image ∙ ap (λ x. x.kernel_sha256) same;
        firmware = (text_eq_iff _ _).0 firmware ∙ ap (λ x. x.firmware_sha256) same;
        build_log = (text_eq_iff _ _).0 log ∙ ap (λ x. x.build_log_sha256) same;
        lines = lines;
      }

  same_hash-ok :
      (key hash found member : Text) (files : Dict Text)
      → lookup member files ≡ some found
      → found ≡ hash
      → same_hash key hash member files ≡ ok tt
  unfolding same_hash at_key
  same_hash-ok key hash found member files there is =
      rw (there, at_key) (rw ((text_eq_iff hash found).1 (sym is)) refl)

  audit_origin-staged_disk :
      (i : Inputs) (c : CheckedDisk) (r : DiskOrigin)
      → IsOriginal i r c
      → audit_origin r (hashes w.sha (staged_disk w i c)) ≡ ok tt
  unfolding audit_origin hashes staged_disk lookup text_eq
  audit_origin-staged_disk i c r o =
      let files = hashes w.sha (staged_disk w i c) in
      rw
        (
          same_hash-ok (codes "rootfs_sha256") r.rootfs_sha256 (w.sha i.disk) (codes "rootfs.ext4")
              files refl o.disk,
          same_hash-ok (codes "kernel_sha256") r.kernel_sha256 (w.sha i.image) (codes "Image") files
              refl o.image,
          same_hash-ok (codes "firmware_sha256") r.firmware_sha256 (w.sha i.firmware)
              (codes "fw_dynamic.bin") files refl o.firmware,
        )
        (same_hash-ok (codes "build_log_sha256") r.build_log_sha256 (w.sha i.build_log)
          (codes "rootfs-build.log") files refl o.build_log)

  -- A package of a disk passes all of the audit but the last part, which looks at BusyBox on the disk: if the memory
  -- that the preset asks for is 1 GiB, if the record of the disk has the builder and packages, and if the
  -- configuration of the kernel also has CONFIG_HZ_100, which the packaging does not ask for.
  pub check_release-audit_record :
      (i : Inputs) {c : CheckedDisk} {r : DiskOrigin}
      → check_release w i ≡ ok c
      → w.read_origin i.disk_record ≡ ok r
      → c.memory ≡ pos 1024
      → r.builder ≡ codes "qemu-system-riscv64"
      → some_packages r.packages ≡ true
      → text_in (codes "CONFIG_HZ_100=y") (splitlines (w.decode i.config)) ≡ true
      → audit_record (w.decode i.config) (distro_manifest_of w i c) r ≡ ok tt
  unfolding audit_record distro_manifest_of audit_origin same_hash at_key lookup hashes staged_disk
  check_release-audit_record i {c} {r} h read memory builder packages hz =
      let o = check_release-IsOriginal i read h in
      rw
        (
          required-audited (splitlines (w.decode i.config)) o.lines hz,
          text_eq_refl (codes "lp64d"),
          memory,
          audit_origin-staged_disk i c r o,
          builder,
          text_eq_refl (codes "qemu-system-riscv64"),
          packages,
        )
        refl
