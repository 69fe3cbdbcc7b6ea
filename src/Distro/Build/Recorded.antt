-- ===== src/Distro/Build/Recorded.antt =====
-- What a new disk and its record have in common.
use linux_build.Base.{
  Bool, true, false, not, [], ◌++◌, none, some, Text, codes, text_eq, strip, splitlines, ok, ◌≡◌,
  refl, ap, ◌∙◌, sym, some-inj,
}
use linux_build.Base.Dict.{lookup, insert}
use linux_build.Base.State.{◌>>=◌, ◌>>◌, lift, bind-eq-ok, lift-eq-ok}
use linux_build.Toml.{Fields}
use linux_build.Distro.Config.{load_config}
use linux_build.Distro.Image.{Provenance}
use linux_build.Distro.Build.{
  Outside, Sources, Paths, Files, DiskRecord, Provisioned, fingerprint, demand, write_file,
  record_path, log_path, is_provisioned, without_returns, tools, check_tools, check_built, hash_of,
  record_of, publish_disk, keep_log, read_log, accept_disk, examine_run, provision_disk, fetch_seed,
  image_of, create_from, create, decide, on_disk, build,
}
use linux_build.Distro.Build.Steps.{
  demand-eq-ok, not-true, lookup_other, lookup_own, HasHash, hash_of-eq-ok, read_log-eq-ok,
}

-- The five paths are different ones.
pub record IsApart (p : Paths) : Type 0 where
  pub disk_manifest : text_eq p.disk (record_path p.disk) ≡ false
  pub log_manifest : text_eq (log_path p.disk) (record_path p.disk) ≡ false
  pub log_disk : text_eq (log_path p.disk) p.disk ≡ false
  pub kernel_disk : text_eq p.kernel p.disk ≡ false
  pub kernel_manifest : text_eq p.kernel (record_path p.disk) ≡ false
  pub firmware_disk : text_eq p.firmware p.disk ≡ false
  pub firmware_manifest : text_eq p.firmware (record_path p.disk) ≡ false

module _ (out : Outside) (s : Sources) (p : Paths) (pristine : Bool) where
  -- The files of a disk as it was built.
  pub record IsBuilt (files : Files) : Type 0 where
    pub rootfs : Fields
    pub loaded : load_config s.cfg ≡ ok rootfs
    pub made : DiskRecord
    pub recorded : lookup (record_path p.disk) files ≡ some (out.dumps made)
    pub inputs : made.inputs_sha256 ≡ fingerprint out s p pristine
    pub settings : made.rootfs ≡ rootfs
    pub builder : made.builder ≡ codes "qemu-system-riscv64"
    pub disk : HasHash out files p.disk made.rootfs_sha256
    pub log : HasHash out files (log_path p.disk) made.build_log_sha256
    pub provisioned : is_provisioned (without_returns (out.decode_log log.0)) ≡ true
    pub kernel : HasHash out files p.kernel made.kernel_sha256
    pub firmware : HasHash out files p.firmware made.firmware_sha256
    pub inventory : Text
    pub listed : made.packages ≡ splitlines inventory
    pub not_empty : text_eq (strip inventory) [] ≡ false

  -- What `publish` leaves of the files before it.
  published : Text → Text → Files → Files
  published disk written files = insert (record_path p.disk) written (insert p.disk disk files)

  kept_hash :
      IsApart p
      → (disk written path : Text) (files : Files) {h : Text}
      → text_eq path (record_path p.disk) ≡ false
      → text_eq path p.disk ≡ false
      → HasHash out files path h
      → HasHash out (published disk written files) path h
  unfolding published
  kept_hash apart disk written path files m d (content, there, is) = (
    content,
    lookup_other (record_path p.disk) path written _ m
        ∙ lookup_other p.disk path disk files d
        ∙ there,
    is,
  )

  publish_disk-IsBuilt :
      IsApart p
      → (rootfs : Fields) (base seed : Provenance) (disk inventory log : Text) (files : Files)
        {files' : Files}
      → load_config s.cfg ≡ ok rootfs
      → lookup (log_path p.disk) files ≡ some log
      → is_provisioned (without_returns (out.decode_log log)) ≡ true
      → text_eq (strip inventory) [] ≡ false
      → publish_disk out s p pristine rootfs base seed disk inventory files ≡ (files', ok tt)
      → IsBuilt files'
  unfolding publish_disk published kept_hash
  publish_disk-IsBuilt apart rootfs base seed disk inventory log files {files'} loaded logged good
        full h =
      let write_both = λ (l k f : Text).
        write_file p.disk disk
        >> write_file (record_path p.disk) (
            out.dumps
              (record_of out s p pristine rootfs base seed disk (splitlines inventory) l k f)) in
      let (t₁, l, h₁, k₁) =
        bind-eq-ok (hash_of out s p pristine (log_path p.disk))
          (λ l. hash_of out s p pristine p.kernel >>= λ k.
            hash_of out s p pristine p.firmware >>= λ f. write_both l k f)
          files h in
      let (t₂, k, h₂, k₂) =
        bind-eq-ok (hash_of out s p pristine p.kernel)
          (λ k. hash_of out s p pristine p.firmware >>= λ f. write_both l k f) t₁ k₁ in
      let (t₃, f, h₃, k₃) =
        bind-eq-ok (hash_of out s p pristine p.firmware) (λ f. write_both l k f) t₂ k₂ in
      let (e₁, log_hash) = hash_of-eq-ok out s p pristine (log_path p.disk) files h₁ in
      let (e₂, kernel_hash) = hash_of-eq-ok out s p pristine p.kernel t₁ h₂ in
      let (e₃, firmware_hash) = hash_of-eq-ok out s p pristine p.firmware t₂ h₃ in
      let made : DiskRecord =
        record_of out s p pristine rootfs base seed disk (splitlines inventory) l k f in
      let written : Text = out.dumps made in
      let is : files' ≡ published disk written files =
        ap (λ x. x.0) (sym k₃) ∙ ap (published disk written) (e₃ ∙ e₂ ∙ e₁) in
      let (content, there, hash) = log_hash in
      let own : content ≡ log = some-inj (sym there ∙ logged) in
      let log_kept : HasHash out files (log_path p.disk) l = (log, logged, hash ∙ ap out.sha own) in
      let kernel_kept : HasHash out files p.kernel k = rw (sym e₁) kernel_hash in
      let firmware_kept : HasHash out files p.firmware f = rw (sym (e₂ ∙ e₁)) firmware_hash in
      rw is (record {
        rootfs = rootfs;
        loaded = loaded;
        made = made;
        recorded = lookup_own (record_path p.disk) written (insert p.disk disk files);
        inputs = refl;
        settings = refl;
        builder = refl;
        disk = (
          disk,
          lookup_other (record_path p.disk) p.disk written _ apart.disk_manifest
              ∙ lookup_own p.disk disk files,
          refl,
        );
        log =
            kept_hash apart disk written (log_path p.disk) files apart.log_manifest apart.log_disk
              log_kept;
        provisioned = good;
        kernel =
            kept_hash apart disk written p.kernel files apart.kernel_manifest apart.kernel_disk
              kernel_kept;
        firmware =
            kept_hash apart disk written p.firmware files apart.firmware_manifest
              apart.firmware_disk firmware_kept;
        inventory = inventory;
        listed = refl;
        not_empty = full;
      })

  accept_disk-IsBuilt :
      IsApart p
      → (rootfs : Fields) (base seed : Provenance) (disk log text : Text) (files : Files)
        {files' : Files}
      → load_config s.cfg ≡ ok rootfs
      → lookup (log_path p.disk) files ≡ some log
      → text ≡ without_returns (out.decode_log log)
      → accept_disk out s p pristine rootfs base seed disk text files ≡ (files', ok tt)
      → IsBuilt files'
  unfolding accept_disk
  accept_disk-IsBuilt apart rootfs base seed disk log text files {files'} loaded logged is h =
      let broken : Text = codes "guest provisioning failed; inspect " ++ log_path p.disk in
      let missing : Text = codes "missing guest package inventory" in
      let last = λ (i : Text). publish_disk out s p pristine rootfs base seed disk i in
      let listed = λ (i : Text). demand (not (text_eq (strip i) [])) missing >> last i in
      let (t₁, u₁, h₁, k₁) =
        bind-eq-ok (demand (is_provisioned text) broken)
          (λ u. lift (out.check_disk disk) >> (lift (out.inventory disk) >>= listed)) files h in
      let (t₂, u₂, h₂, k₂) =
        bind-eq-ok (lift (out.check_disk disk)) (λ u. lift (out.inventory disk) >>= listed) t₁ k₁ in
      let (t₃, i, h₃, k₃) = bind-eq-ok (lift (out.inventory disk)) listed t₂ k₂ in
      let (t₄, u₄, h₄, k₄) =
        bind-eq-ok (demand (not (text_eq (strip i) [])) missing) (λ u. last i) t₃ k₃ in
      let (good, e₁) = demand-eq-ok (is_provisioned text) broken files h₁ in
      let (full, e₄) = demand-eq-ok (not (text_eq (strip i) [])) missing t₃ h₄ in
      let e₂ : t₁ ≡ t₂ = (lift-eq-ok (out.check_disk disk) t₁ h₂).1 in
      let e₃ : t₂ ≡ t₃ = (lift-eq-ok (out.inventory disk) t₂ h₃).1 in
      let same : t₄ ≡ files = e₄ ∙ sym e₃ ∙ sym e₂ ∙ e₁ in
      publish_disk-IsBuilt apart rootfs base seed disk i log t₄ loaded
        (ap (lookup (log_path p.disk)) same ∙ logged) (ap is_provisioned (sym is) ∙ good)
        (not-true (text_eq (strip i) []) full) k₄

  examine_run-IsBuilt :
      IsApart p
      → (rootfs : Fields) (base seed : Provenance) (run : Provisioned) (files : Files)
        {files' : Files}
      → load_config s.cfg ≡ ok rootfs
      → examine_run out s p pristine rootfs base seed run files ≡ (files', ok tt)
      → IsBuilt files'
  unfolding examine_run
  examine_run-IsBuilt apart rootfs base seed run files loaded h =
      let accept = λ (disk text : Text). accept_disk out s p pristine rootfs base seed disk text in
      let look = read_log out s p pristine in
      let (t₁, u₁, h₁, k₁) =
        bind-eq-ok (keep_log out s p pristine run.log)
          (λ u. lift run.disk >>= λ disk. look >>= accept disk) files h in
      let (t₂, disk, h₂, k₂) = bind-eq-ok (lift run.disk) (λ disk. look >>= accept disk) t₁ k₁ in
      let (t₃, text, h₃, k₃) = bind-eq-ok look (accept disk) t₂ k₂ in
      let (log, logged, is, same) = read_log-eq-ok out s p pristine t₂ h₃ in
      accept_disk-IsBuilt apart rootfs base seed disk log text t₃ loaded
        (ap (lookup (log_path p.disk)) same ∙ logged) is k₃

  create-IsBuilt :
      IsApart p
      → (rootfs : Fields) (files : Files) {files' : Files} → load_config s.cfg ≡ ok rootfs
      → create out s p pristine rootfs files ≡ (files', ok tt)
      → IsBuilt files'
  unfolding create create_from provision_disk
  create-IsBuilt apart rootfs files loaded h =
      let image = image_of out s p pristine rootfs in
      let (t₁, u₁, h₁, k₁) =
        bind-eq-ok (check_tools out s p pristine tools)
          (λ u.
            check_built out s p pristine >> (lift image >>= create_from out s p pristine rootfs))
          files h in
      let (t₂, u₂, h₂, k₂) =
        bind-eq-ok (check_built out s p pristine)
          (λ u. lift image >>= create_from out s p pristine rootfs) t₁ k₁ in
      let (t₃, i, h₃, k₃) = bind-eq-ok (lift image) (create_from out s p pristine rootfs) t₂ k₂ in
      let (t₄, base, h₄, k₄) =
        bind-eq-ok (lift (out.fetch i))
          (λ base.
            fetch_seed out s p pristine i base >>= provision_disk out s p pristine rootfs base)
          t₃ k₃ in
      let (t₅, seed, h₅, k₅) =
        bind-eq-ok (fetch_seed out s p pristine i base)
          (provision_disk out s p pristine rootfs base) t₄ k₄ in
      examine_run-IsBuilt apart rootfs base.1 seed.1 _ t₅ loaded k₅

  -- Where the disk is not there yet, a build that succeeds leaves the disk, its log, the kernel and the firmware with the
  -- hashes that the record beside the disk has, which also has the fingerprint of the inputs and a list of
  -- packages from an inventory that is not empty; and the log is that of a successful provisioning.
  pub build-IsBuilt :
      IsApart p
      → (files : Files) {files' : Files} → lookup p.disk files ≡ none
      → build out s p pristine files ≡ (files', ok tt)
      → IsBuilt files'
  unfolding build on_disk decide
  build-IsBuilt apart files absent h =
      let (t, rootfs, l, k) =
        bind-eq-ok (lift (load_config s.cfg)) (on_disk out s p pristine) files h in
      let (loaded, same) = lift-eq-ok (load_config s.cfg) files l in
      let now : lookup p.disk t ≡ none = ap (lookup p.disk) (sym same) ∙ absent in
      create-IsBuilt apart rootfs t loaded
        (ap (λ o. decide out s p pristine rootfs o t) (sym now) ∙ k)
