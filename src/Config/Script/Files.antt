-- ===== src/Config/Script/Files.antt =====
-- What a run of gen-config.py leaves in the output directory.
use mathlib.Core.Path.{subst}
use linux_build.Base.{
  ◌∷◌, ◌++◌, ap, true, false, none, some, ◌≡◌, refl, arith, Text, codes, text_eq, Result, ok, err,
  Bool-cases, Result-cases, Fault, List, arith, inl, inr,
}
use linux_build.Base.Dict.{lookup, insert, erase, lookup-insert, lookup-erase}
use linux_build.Toml.{Fields, table, has_key}
use linux_build.Config.Kernel.{gen_kernel_config, gen_variant_kernel_config}
use linux_build.Config.Make.{gen_make_config}
use linux_build.Config.Buildroot.{gen_buildroot_config}
use linux_build.Config.Script.{
  Disk, M, Inputs, put, remove, write_configs, write_buildroot, ◌>>=◌, print_summary, lift,
  generate, main, load_preset, ◌>>◌,
}

put-eq-ok :
    (name : Text) (r : Result Text) (d : Disk) {d' : Disk}
    → put name r d ≡ (d', ok tt)
    → (text : Text) × (r ≡ ok text) × (d' ≡ insert name text d)
unfolding put
put-eq-ok name (ok text) d h = (text, refl, ground arith)
put-eq-ok name (err e) d h = absurd (ground arith)

-- The rest of a run, when it begins with writing a file and succeeds.
put->>-eq-ok :
    (name : Text) (r : Result Text) (k : M (Unit {0})) (d : Disk) {d' : Disk}
    → (put name r >> k) d ≡ (d', ok tt)
    → (text : Text) × (r ≡ ok text) × (k (insert name text d) ≡ (d', ok tt))
unfolding put
put->>-eq-ok name (ok text) k d h = (text, refl, h)
put->>-eq-ok name (err e) k d h = absurd (ground arith)

-- The file holds what the generator returned.
abbrev pub Holds : Disk → Text → Result Text → Type 0
Holds d name generated = (text : Text) × (generated ≡ ok text) × (lookup name d ≡ some text)

module _ (root : Text) (i : Inputs) (fs : Fields) where
  -- Every fragment that was generated, and no Buildroot fragment unless the preset has that section.
  pub record IsGenerated (d : Disk) : Type 0 where
    pub make :
        Holds d (codes ".config.mk") (gen_make_config root (table fs) i.stem (some i.resolved))
    pub kernel : Holds d (codes ".config.kernel") (gen_kernel_config (table fs))
    pub minimal :
        Holds d
          (codes ".config.kernel.minimal")
          (gen_variant_kernel_config (table fs) (codes "minimal"))
    pub buildroot :
        Holds d
          (codes ".config.kernel.buildroot")
          (gen_variant_kernel_config (table fs) (codes "buildroot"))
    pub distro :
        Holds d
          (codes ".config.kernel.distro")
          (gen_variant_kernel_config (table fs) (codes "distro"))
    pub fragment :
        has_key (codes "buildroot") fs ≡ true
        → Holds d (codes ".config.buildroot") (gen_buildroot_config root (table fs))
    pub no_fragment :
        has_key (codes "buildroot") fs ≡ false → lookup (codes ".config.buildroot") d ≡ none

  -- The last step touches the Buildroot fragment alone.
  record Last (d d' : Disk) : Type 0 where
    rest :
        (name : Text)
        → text_eq name (codes ".config.buildroot") ≡ false
        → lookup name d' ≡ lookup name d
    fragment :
        has_key (codes "buildroot") fs ≡ true
        → Holds d' (codes ".config.buildroot") (gen_buildroot_config root (table fs))
    no_fragment :
        has_key (codes "buildroot") fs ≡ false → lookup (codes ".config.buildroot") d' ≡ none

  write_buildroot-Last : (d d' : Disk) → write_buildroot root fs d ≡ (d', ok tt) → Last d d'
  unfolding write_buildroot
  write_buildroot-Last d d' h = elim (Bool-cases (has_key (codes "buildroot") fs)) [
    | inl e ↦
        let (text, made, is) =
          put-eq-ok (codes ".config.buildroot") (gen_buildroot_config root (table fs)) d
            (rw (e, write_buildroot) at h) in
        record {
          rest = λ name ne. rw (is, lookup-insert, ne);
          fragment = λ _. (text, made, rw (is, lookup-insert) (unfold text_eq in refl));
          no_fragment = λ no_key. cc;
        }
    | inr e ↦
        let removed : remove (codes ".config.buildroot") d ≡ (d', ok tt) =
          rw (e, write_buildroot) at h in
        let is : d' ≡ erase (codes ".config.buildroot") d = ground arith in
        record {
          rest = λ name ne. rw (is, lookup-erase, ne);
          fragment = λ key. absurd (cc);
          no_fragment = λ _. rw (is, lookup-erase) (unfold text_eq in refl);
        }
  ]

  -- What is left of the run after the kernel fragment, and so on to the last.
  abbrev pub from_distro : M (Unit {0})
  from_distro =
      put (codes ".config.kernel.distro") (gen_variant_kernel_config (table fs) (codes "distro"))
      >> write_buildroot root fs

  abbrev pub from_buildroot : M (Unit {0})
  from_buildroot =
      put (codes ".config.kernel.buildroot")
        (gen_variant_kernel_config (table fs) (codes "buildroot"))
      >> from_distro

  abbrev pub from_minimal : M (Unit {0})
  from_minimal =
      put (codes ".config.kernel.minimal") (gen_variant_kernel_config (table fs) (codes "minimal"))
      >> from_buildroot

  abbrev pub from_kernel : M (Unit {0})
  from_kernel = put (codes ".config.kernel") (gen_kernel_config (table fs)) >> from_minimal

  write_configs-IsGenerated :
      (d d' : Disk) → write_configs root i fs d ≡ (d', ok tt) → IsGenerated d'
  unfolding write_configs
  write_configs-IsGenerated d d' h =
      let (mk, mk_made, h₁) =
        put->>-eq-ok (codes ".config.mk") (gen_make_config root (table fs) i.stem (some i.resolved))
          from_kernel d h in
      let (kernel, kernel_made, h₂) = put->>-eq-ok _ _ from_minimal _ h₁ in
      let (minimal, minimal_made, h₃) = put->>-eq-ok _ _ from_buildroot _ h₂ in
      let (buildroot, buildroot_made, h₄) = put->>-eq-ok _ _ from_distro _ h₃ in
      let (distro, distro_made, h₅) = put->>-eq-ok _ _ (write_buildroot root fs) _ h₄ in
      let last = write_buildroot-Last _ d' h₅ in
      record {
        make = (
          mk,
          mk_made,
          rw (last.rest (codes ".config.mk") (unfold text_eq in refl))
              (simp lookup-insert (unfold text_eq in refl)),
        );
        kernel = (
          kernel,
          kernel_made,
          rw (last.rest (codes ".config.kernel") (unfold text_eq in refl))
              (simp lookup-insert (unfold text_eq in refl)),
        );
        minimal = (
          minimal,
          minimal_made,
          rw (last.rest (codes ".config.kernel.minimal") (unfold text_eq in refl))
              (simp lookup-insert (unfold text_eq in refl)),
        );
        buildroot = (
          buildroot,
          buildroot_made,
          rw (last.rest (codes ".config.kernel.buildroot") (unfold text_eq in refl))
              (simp lookup-insert (unfold text_eq in refl)),
        );
        distro = (
          distro,
          distro_made,
          rw (last.rest (codes ".config.kernel.distro") (unfold text_eq in refl))
              (simp lookup-insert (unfold text_eq in refl)),
        );
        fragment = last.fragment;
        no_fragment = last.no_fragment;
      }

failed :
    {A : Type 0} {d d' : Disk} {x : Fault} {a : A}
    → ◌≡◌ {A = Disk × Result A} (d, err x) (d', ok a)
    → ⊥
failed h = ground arith

-- What an action that follows another one says of it, when both succeed.
bind-eq-ok :
    {A B : Type 0} (m : M A) (f : A → M B) (d : Disk) {d' : Disk} {b : B}
    → (m >>= f) d ≡ (d', ok b)
    → (e : Disk) × (a : A) × (m d ≡ (e, ok a)) × (f a e ≡ (d', ok b))
bind-eq-ok {A} {B} m f d {d'} {b} h = go (m d) refl h
  where
    go :
        (p : Disk × Result A)
        → m d ≡ p
        → ◌>>=◌ {A = A} {B = B} (λ e. p) f d ≡ (d', ok b)
        → (e : Disk) × (a : A) × (m d ≡ (e, ok a)) × (f a e ≡ (d', ok b))
    go (e, ok a) q h = (e, a, q, h)
    go (e, err x) q h = absurd (failed h)

module _ (root : Text) (i : Inputs) where
  from_summary : Fields → M (List Text)
  from_summary fs = do
    summary ← lift (print_summary fs i.out_dir)
    lift (ok ((codes "✓ Configuration generated from " ++ i.system_toml) ∷ summary))

  from_summary-keeps :
      (fs : Fields) (e : Disk) {d' : Disk} {lines : List Text}
      → from_summary fs e ≡ (d', ok lines)
      → e ≡ d'
  unfolding from_summary
  from_summary-keeps fs e h = elim (Result-cases (print_summary fs i.out_dir)) [
    | inl (summary, p) ↦ ap (λ x. x.0) (rw p at h)
    | inr (x, p) ↦ absurd (failed (rw p at h))
  ]

  generate-IsGenerated :
      (fs : Fields) (d : Disk) {d' : Disk} {lines : List Text}
      → generate root i fs d ≡ (d', ok lines)
      → IsGenerated root i fs d'
  unfolding generate from_summary
  generate-IsGenerated fs d h =
      let (e, u, written, rest) = bind-eq-ok (write_configs root i fs) (λ _. from_summary fs) d h in
      subst (IsGenerated root i fs) (from_summary-keeps fs e rest)
        (write_configs-IsGenerated root i fs d e written)

  -- When a run succeeds, the preset was there and well-formed, each fragment holds what its generator
  -- returned for it, and the Buildroot fragment is there exactly if the preset has that section,
  -- whatever was in the directory before.
  pub main-IsGenerated :
      (d : Disk) {d' : Disk} {lines : List Text}
      → main root i d ≡ (d', ok lines)
      → (fs : Fields) × (load_preset i ≡ ok fs) × IsGenerated root i fs d'
  unfolding main
  main-IsGenerated d h = elim (Result-cases (load_preset i)) [
    | inl (fs, e) ↦ (fs, e, generate-IsGenerated fs d (rw (e, main) at h))
    | inr (x, e) ↦ absurd (failed (rw (e, main) at h))
  ]
