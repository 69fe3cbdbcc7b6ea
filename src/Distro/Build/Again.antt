-- ===== src/Distro/Build/Again.antt =====
-- A disk that was built is used again.
use linux_build.Base.{
  Bool, true, false, not, ◌||◌, some, Text, codes, text_eq, text_eq_refl, ok, err, value_error, ◌≡◌,
  refl, ap, ◌∙◌, if◌then◌else◌,
}
use linux_build.Base.Dict.{lookup}
use linux_build.Distro.Build.{
  Outside, Sources, Paths, Files, DiskRecord, fingerprint, is_recorded, demand, record_path,
  check_prior, reuse_disk, decide, on_disk, build,
}
use linux_build.Distro.Build.Recorded.{IsBuilt}

-- JSON gives back the two hashes of a record.
pub record ReadsBack (out : Outside) : Type 0 where
  pub reads :
      (d : DiskRecord)
      → out.read_prior (out.dumps d)
        ≡ ok (record { inputs_sha256 = some d.inputs_sha256; rootfs_sha256 = some d.rootfs_sha256 })

abbrev pub modified : Text
modified = codes "release disk modified since construction; choose a clean build directory"

demand-if :
    (b : Bool) (message : Text) (files : Files)
    → demand b message files ≡ (files, if b then ok tt else err (value_error message))
demand-if true message files = refl
demand-if false message files = refl

module _ (out : Outside) (s : Sources) (p : Paths) where
  fingerprint_same : (a b : Bool) → fingerprint out s p a ≡ fingerprint out s p b
  unfolding fingerprint
  fingerprint_same a b = refl

  -- Once a disk is built, a later build from the same inputs, with the record as it was left and a disk at its path,
  -- whatever is in it, changes no file; it succeeds, unless the disk is to be pristine and has not the recorded hash any more.
  pub build_later :
      ReadsBack out
      → (first pristine : Bool) (files later : Files) {disk : Text}
      → (built : IsBuilt out s p first files)
      → lookup (record_path p.disk) later ≡ lookup (record_path p.disk) files
      → lookup p.disk later ≡ some disk
      → build out s p pristine later ≡ (
        later,
        if not pristine || text_eq built.made.rootfs_sha256 (out.sha disk)
            then ok tt
            else err (value_error modified),
      )
  unfolding build on_disk decide reuse_disk is_recorded check_prior
  build_later json first pristine files later {disk} built kept there =
      let found : lookup (record_path p.disk) later ≡ some (out.dumps built.made) =
        kept ∙ built.recorded in
      let inputs : text_eq built.made.inputs_sha256 (fingerprint out s p pristine) ≡ true =
        ap (λ x. text_eq x (fingerprint out s p pristine))
          (built.inputs ∙ fingerprint_same first pristine)
        ∙ text_eq_refl (fingerprint out s p pristine) in
      rw (built.loaded, there, found, json.reads built.made, check_prior, inputs)
        (demand-if (not pristine || text_eq built.made.rootfs_sha256 (out.sha disk)) modified later)
