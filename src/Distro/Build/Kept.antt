-- ===== src/Distro/Build/Kept.antt =====
-- A disk that is there is never overwritten.
use linux_build.Base.{
  Bool, true, false, not, ◌||◌, Option, none, some, Text, Result, ok, err, Bool-cases, inl, inr,
  ◌≡◌, refl, ap, ◌∙◌, codes,
}
use linux_build.Base.Dict.{lookup}
use linux_build.Base.State.{Action, ◌>>=◌, lift}
use linux_build.Toml.{Fields}
use linux_build.Distro.Config.{load_config}
use linux_build.Distro.Build.{
  Outside, Sources, Paths, Files, Prior, fingerprint, is_recorded, demand, record_path, check_prior,
  reuse_disk, decide, on_disk, build,
}

demand-same : (b : Bool) (message : Text) (files : Files) → (demand b message files).0 ≡ files
demand-same true message files = refl
demand-same false message files = refl

-- After a result of the outside, a step that changes nothing.
lift-same :
    {A : Type 0} (r : Result A) (next : A → Action Files (Unit {0})) (files : Files)
    → ((a : A) → (next a files).0 ≡ files)
    → ((lift r >>= next) files).0 ≡ files
lift-same (ok a) next files h = h a
lift-same (err x) next files h = refl

module _ (out : Outside) (s : Sources) (p : Paths) (pristine : Bool) where
  check_prior-same :
      (disk : Text) (prior : Prior) (files : Files)
      → (check_prior out s p pristine disk prior files).0 ≡ files
  unfolding check_prior
  check_prior-same disk prior files =
      elim (Bool-cases (is_recorded prior.inputs_sha256 (fingerprint out s p pristine))) [
        | inl e ↦
            rw (e, check_prior)
              (demand-same (not pristine || is_recorded prior.rootfs_sha256 (out.sha disk))
                (codes "release disk modified since construction; choose a clean build directory")
                files)
        | inr e ↦ rw (e, check_prior) refl
      ]

  reuse_disk-same :
      (disk : Text) (written : Option Text) (files : Files)
      → (reuse_disk out s p pristine disk written files).0 ≡ files
  unfolding reuse_disk
  reuse_disk-same disk none files = refl
  reuse_disk-same disk (some written) files =
      lift-same (out.read_prior written) (check_prior out s p pristine disk) files
        (λ prior. check_prior-same disk prior files)

  decide-same :
      (rootfs : Fields) (disk : Text) (files : Files)
      → (decide out s p pristine rootfs (some disk) files).0 ≡ files
  unfolding decide
  decide-same rootfs disk files = reuse_disk-same disk (lookup (record_path p.disk) files) files

  on_disk-same :
      (rootfs : Fields) (files : Files) {disk : Text}
      → lookup p.disk files ≡ some disk
      → (on_disk out s p pristine rootfs files).0 ≡ files
  unfolding on_disk
  on_disk-same rootfs files {disk} there =
      ap (λ o. (decide out s p pristine rootfs o files).0) there ∙ decide-same rootfs disk files

  -- Where the disk is there, `build` changes no file, neither when it reuses the disk nor when it stops.
  pub build-same :
      (files : Files) {disk : Text}
      → lookup p.disk files ≡ some disk
      → (build out s p pristine files).0 ≡ files
  unfolding build
  build-same files {disk} there =
      lift-same (load_config s.cfg) (on_disk out s p pristine) files
        (λ rootfs. on_disk-same rootfs files there)
