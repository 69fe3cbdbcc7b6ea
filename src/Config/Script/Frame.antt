-- ===== src/Config/Script/Frame.antt =====
-- What a run of gen-config.py leaves alone, whether it succeeds or fails.
use linux_build.Base.{
  false, List, [], ◌∷◌, some, ◌≡◌, refl, arith, ◌∙◌, Text, codes, text_eq, text_in, Result, ok, err,
  Bool-cases, Result-cases, inl, inr,
}
use linux_build.Base.Dict.{lookup, lookup-insert, lookup-erase}
use linux_build.Toml.{Fields, table, has_key}
use linux_build.Config.Kernel.{gen_kernel_config, gen_variant_kernel_config}
use linux_build.Config.Script.Files.{from_kernel, from_minimal, from_buildroot, from_distro}
use linux_build.Config.Make.{gen_make_config}
use linux_build.Config.Script.{
  Disk, M, Inputs, lift, put, remove, write_configs, write_buildroot, generate, main, ◌>>=◌, ◌>>◌,
  load_preset,
}

-- The files that the script writes or removes.
abbrev pub outputs : List Text
outputs =
    codes ".config.mk"
    ∷ codes ".config.kernel"
    ∷ codes ".config.kernel.minimal"
    ∷ codes ".config.kernel.buildroot"
    ∷ codes ".config.kernel.distro"
    ∷ codes ".config.buildroot"
    ∷ []

abbrev Keeps : {A : Type 0} → Text → M A → Type 0
Keeps name m = (d : Disk) → lookup name (m d).0 ≡ lookup name d

Keeps-bind :
    {A B : Type 0} (name : Text) (m : M A) (f : A → M B)
    → Keeps name m
    → ((a : A) → Keeps name (f a))
    → Keeps name (m >>= f)
Keeps-bind {A} {B} name m f h k d = go (m d) (h d)
  where
    go :
        (p : Disk × Result A)
        → lookup name p.0 ≡ lookup name d
        → lookup name (◌>>=◌ {A = A} {B = B} (λ e. p) f d).0 ≡ lookup name d
    go (e, ok a) h = k a e ∙ h
    go (e, err x) h = h

Keeps-lift : {A : Type 0} (name : Text) (r : Result A) → Keeps name (lift r)
Keeps-lift name r d = refl

Keeps-put :
    (name file : Text) (r : Result Text) → text_eq name file ≡ false → Keeps name (put file r)
unfolding put
Keeps-put name file (ok text) ne d = rw (lookup-insert, ne)
Keeps-put name file (err e) ne d = refl

Keeps-put_then :
    (name file : Text) (r : Result Text) (k : M (Unit {0}))
    → text_eq name file ≡ false
    → Keeps name k
    → Keeps name (put file r >> k)
Keeps-put_then name file r k ne h =
    Keeps-bind name (put file r) (λ _. k) (Keeps-put name file r ne) (λ _. h)

Keeps-remove : (name file : Text) → text_eq name file ≡ false → Keeps name (remove file)
Keeps-remove name file ne d = rw (lookup-erase, ne)

-- A name that is in no list of texts is none of them.
record IsOther (name : Text) : Type 0 where
  mk : text_eq name (codes ".config.mk") ≡ false
  kernel : text_eq name (codes ".config.kernel") ≡ false
  minimal : text_eq name (codes ".config.kernel.minimal") ≡ false
  kernel_buildroot : text_eq name (codes ".config.kernel.buildroot") ≡ false
  distro : text_eq name (codes ".config.kernel.distro") ≡ false
  buildroot : text_eq name (codes ".config.buildroot") ≡ false

IsOther-of_text_in : (name : Text) → text_in name outputs ≡ false → IsOther name
unfolding text_in
IsOther-of_text_in name h = ground arith

module _ (root : Text) (i : Inputs) where
  Keeps-write_buildroot :
      (name : Text) (fs : Fields) → IsOther name → Keeps name (write_buildroot root fs)
  unfolding write_buildroot
  Keeps-write_buildroot name fs o d = elim (Bool-cases (has_key (codes "buildroot") fs)) [
    | inl e ↦ rw (e, write_buildroot) (Keeps-put name _ _ o.buildroot d)
    | inr e ↦ rw (e, write_buildroot) (Keeps-remove name _ o.buildroot d)
  ]

  Keeps-write_configs :
      (name : Text) (fs : Fields) → IsOther name → Keeps name (write_configs root i fs)
  unfolding write_configs
  Keeps-write_configs name fs o =
      let k_distro =
        Keeps-put_then name (codes ".config.kernel.distro")
          (gen_variant_kernel_config (table fs) (codes "distro")) (write_buildroot root fs) o.distro
          (Keeps-write_buildroot name fs o) in
      let k_buildroot =
        Keeps-put_then name (codes ".config.kernel.buildroot")
          (gen_variant_kernel_config (table fs) (codes "buildroot")) (from_distro root i fs)
          o.kernel_buildroot k_distro in
      let k_minimal =
        Keeps-put_then name (codes ".config.kernel.minimal")
          (gen_variant_kernel_config (table fs) (codes "minimal")) (from_buildroot root i fs)
          o.minimal k_buildroot in
      let k_kernel =
        Keeps-put_then name (codes ".config.kernel") (gen_kernel_config (table fs))
          (from_minimal root i fs) o.kernel k_minimal in
      Keeps-put_then name (codes ".config.mk")
        (gen_make_config root (table fs) i.stem (some i.resolved)) (from_kernel root i fs) o.mk
        k_kernel

  Keeps-generate : (name : Text) (fs : Fields) → IsOther name → Keeps name (generate root i fs)
  unfolding generate
  Keeps-generate name fs o d = ground (arith, Keeps-write_configs name fs o d)

  -- Every file that is none of the six outputs is as it was before, also after a run that failed.
  pub main_keeps :
      (name : Text) (d : Disk)
      → text_in name outputs ≡ false
      → lookup name (main root i d).0 ≡ lookup name d
  unfolding main
  main_keeps name d h = elim (Result-cases (load_preset i)) [
    | inl (fs, e) ↦ rw (e, main) (Keeps-generate name fs (IsOther-of_text_in name h) d)
    | inr (x, e) ↦ rw (e, main)
  ]
