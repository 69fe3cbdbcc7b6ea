-- ===== src/PackageTest/Audit/Whole.antt =====
-- A package that package-artifacts.py publishes is one that test-packages.py can read.
use linux_build.Base.{
  ok-inj, ℕ, &&_iff, Bool, true, false, not, [], ◌∷◌, ◌++◌, ◌≡◌, refl, arith, Option, none, some,
  Text, codes, text_eq, text_eq_refl, has_char, ok, All, map, >>=-eq-ok, >>-eq-ok, Bool-cases, inl,
  inr,
}
use mathlib.Core.Path.{subst}
use linux_build.Base.Dict.{Dict, lookup, lookup-insert}
use linux_build.Base.Bytes.{Bytes}
use linux_build.Package.Checks.{Inputs, Checked, check, is_basename, is_buildroot}
use linux_build.Package.Publish.{Build, Folder, manifest_of, staged, publish, optional}
use linux_build.Package.Script.{Writers, package_files, main}
use linux_build.PackageTest.Hashes.Own.{HasManifest, package_files-HasManifest}
use linux_build.PackageTest.Audit.{audit_firmware, extract, is_seen}
use linux_build.PackageTest.Audit.Agreement.{audit_firmware_accepts}
use linux_build.PackageTest.Audit.Extraction.{
  IsPart, AreNew, folder_member, file_member, extract-folder,
}

abbrev Readable : Dict Bytes → Type 0
Readable files = All (λ file. IsPart file.0) files × AreNew [] files

with_optional :
    (a b c d e f g h r m : Bytes) (source rootfs : Option Bytes)
    → Readable (
        ((codes "fw_payload.bin", a)
          ∷ (codes "fw_payload.elf", b)
          ∷ (codes "fw_dynamic.bin", c)
          ∷ (codes "Image", d)
          ∷ (codes "vmlinux", e)
          ∷ (codes "kernel.config", f)
          ∷ (codes "initramfs.cpio.gz", g)
          ∷ (codes "preset.toml", h)
          ∷ (optional (codes "kernel-source.json") source
              ++ (optional (codes "rootfs-manifest.json") rootfs ++ ((codes "README.md", r) ∷ []))))
        ++ ((codes "manifest.json", m) ∷ []))
unfolding has_char text_eq is_seen lookup
with_optional a b c d e f g h r m none none = ground arith
with_optional a b c d e f g h r m none (some y) = ground arith
with_optional a b c d e f g h r m (some x) none = ground arith
with_optional a b c d e f g h r m (some x) (some y) = ground arith

not-true : (b : Bool) → not b ≡ true → b ≡ false
not-true false h = refl
not-true true h = cc

is_basename-IsPart : (name : Text) → is_basename name ≡ true → text_eq name [] ≡ false → IsPart name
unfolding is_basename
is_basename-IsPart name h filled =
    let (first, parent) = (&&_iff _ _).0 h in
    let (slash, dot) = (&&_iff _ _).0 first in (not-true _ slash, filled, not-true _ dot)

check-is_basename :
    (sha : Bytes → Text) (i : Inputs) {c : Checked} → check sha i ≡ ok c → is_basename i.name ≡ true
unfolding check
check-is_basename sha i h = (>>-eq-ok (is_basename i.name) _ _ h).0

module _ (w : Writers) where
  package_files-Readable : (i : Inputs) (b : Build) (c : Checked) → Readable (package_files w i b c)
  unfolding package_files staged
  package_files-Readable i b c = elim (Bool-cases (is_buildroot i)) [
    | inl e ↦ rw e (with_optional _ _ _ _ _ _ _ _ _ _ b.source_record b.rootfs_manifest)
    | inr e ↦ rw e (with_optional _ _ _ _ _ _ _ _ _ _ b.source_record none)
  ]

  -- What is promised of the package that a run publishes.
  pub record IsPublished (i : Inputs) (b : Build) (after : Folder) : Type 0 where
    pub checked : Checked
    pub accepted : check w.sha i ≡ ok checked
    pub files : Dict Bytes
    pub placed : lookup i.name after.packages ≡ some files
    pub archived : lookup (i.name ++ codes ".tar.gz") after.archives ≡ some (w.tar i.name files)
    pub image : lookup (codes "Image") files ≡ some i.image
    pub firmware : lookup (codes "fw_payload.bin") files ≡ some i.fw_payload
    pub described :
        HasManifest w.sha files
          (λ recorded. w.encode (w.dumps (manifest_of w.sha i checked b) recorded))
    pub extracted :
        extract i.name (folder_member i.name ∷ map (file_member i.name) files) [] ≡ ok files
    pub audited : audit_firmware (manifest_of w.sha i checked b) i.image i.fw_payload ≡ ok tt

  -- When `package-artifacts.py` succeeds, under a name that is not empty, the package and its archive
  -- stand in the folder; `test-packages.py` reads exactly its files from the members of that archive,
  -- these hold the manifest that was written, with the hashes of the other files, and it accepts the
  -- kernel and the firmware under this manifest.
  pub main-IsPublished :
      (i : Inputs) (b : Build) (time_ns : ℕ) (folder : Folder) {after : Folder}
      → text_eq i.name [] ≡ false
      → main w i b time_ns folder ≡ ok after
      → IsPublished i b after
  unfolding main
  main-IsPublished i b time_ns folder filled h =
      let (c, accepted, made) = >>=-eq-ok (check w.sha i) _ h in
      let (parts, new) = package_files-Readable i b c in
      subst (IsPublished i b) (ok-inj made) (record {
        checked = c;
        accepted = accepted;
        files = package_files w i b c;
        placed = unfold publish in rw (lookup-insert, text_eq_refl);
        archived = unfold publish in rw (lookup-insert, text_eq_refl);
        image = unfold package_files staged lookup text_eq in refl;
        firmware = unfold package_files staged lookup text_eq in refl;
        described = package_files-HasManifest w i b c;
        extracted =
            extract-folder i.name (package_files w i b c)
              (is_basename-IsPart i.name (check-is_basename w.sha i accepted) filled) parts new;
        audited = audit_firmware_accepts w.sha i b accepted;
      })
