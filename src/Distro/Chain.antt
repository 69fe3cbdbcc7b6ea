-- ===== src/Distro/Chain.antt =====
-- A disk that scripts/build-distro.py made, packed by scripts/package-distro.py, before the audit of
-- scripts/distro_runtime.py.
use linux_build.Base.{
  true, false, List, [], ◌∷◌, some, pos, Text, codes, text_eq, text_eq_refl, text_in, strip,
  splitlines, ok, ◌≡◌, refl, sym, ap, ◌∙◌, some-inj, false≢true, Bool, none,
}
use linux_build.Base.{has_line, splitlines-has_line}
use linux_build.Base.Dict.{lookup}
use linux_build.Distro.Build.{Outside, Sources, Paths, Files, DiskRecord, record_path, build}
use linux_build.Distro.Build.Recorded.{IsApart, build-IsBuilt}
use linux_build.Distro.Audit.{DiskOrigin, some_packages, audit_record}
use linux_build.Distro.Script.{Inputs, Writers, CheckedDisk, check_release, distro_manifest_of}
use linux_build.Distro.Script.Accepted.{check_release-audit_record}

-- The keys of a record that the audit reads.
abbrev pub origin_of : DiskRecord → DiskOrigin
origin_of d = record {
  rootfs_sha256 = d.rootfs_sha256;
  kernel_sha256 = d.kernel_sha256;
  firmware_sha256 = d.firmware_sha256;
  build_log_sha256 = d.build_log_sha256;
  builder = d.builder;
  packages = d.packages;
}

-- JSON gives back these keys of a record.
pub record ReadsOrigin (out : Outside) (w : Writers) : Type 0 where
  pub reads : (d : DiskRecord) → w.read_origin (out.dumps d) ≡ ok (origin_of d)

has_line-some_packages : (ls : List Text) → has_line ls ≡ true → some_packages ls ≡ true
has_line-some_packages [] h = cc
has_line-some_packages (l ∷ ls) h = refl

splitlines-some_packages :
    (s : Text) → text_eq (strip s) [] ≡ false → some_packages (splitlines s) ≡ true
unfolding strip
splitlines-some_packages [] h = absurd (false≢true (sym h ∙ text_eq_refl []))
splitlines-some_packages (c ∷ s) h =
    has_line-some_packages (splitlines (c ∷ s)) (splitlines-has_line c s)

-- A disk that a build has just made, with the record beside it, passes all of the audit but the look at BusyBox
-- once it is packed, if the preset asks for 1 GiB and the kernel has CONFIG_HZ_100.
pub built-audit_record :
    (out : Outside) (w : Writers)
    → ReadsOrigin out w
    → (s : Sources) (p : Paths) (pristine : Bool) → IsApart p
    → (files : Files) {files' : Files} → lookup p.disk files ≡ none
    → build out s p pristine files ≡ (files', ok tt)
    → (i : Inputs) {c : CheckedDisk} → lookup (record_path p.disk) files' ≡ some i.disk_record
    → check_release w i ≡ ok c
    → c.memory ≡ pos 1024
    → text_in (codes "CONFIG_HZ_100=y") (splitlines (w.decode i.config)) ≡ true
    → (r : DiskOrigin) × (w.read_origin i.disk_record ≡ ok r)
      × (audit_record (w.decode i.config) (distro_manifest_of w i c) r ≡ ok tt)
built-audit_record out w json s p pristine apart files absent built i there checked memory hz =
    let is = build-IsBuilt out s p pristine apart files absent built in
    let same : out.dumps is.made ≡ i.disk_record = some-inj (sym is.recorded ∙ there) in
    let read : w.read_origin i.disk_record ≡ ok (origin_of is.made) =
      ap w.read_origin (sym same) ∙ json.reads is.made in
    (
      origin_of is.made,
      read,
      check_release-audit_record w i checked read memory is.builder
          (ap some_packages is.listed ∙ splitlines-some_packages is.inventory is.not_empty) hz,
    )
