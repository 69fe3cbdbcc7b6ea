-- ===== src/Firmware/Prepare/Outcome.antt =====
-- What scripts/prepare-opensbi.py accepts, and what it leaves.
use linux_build.Base.{
  true, false, [], ◌∷◌, ◌++◌, ◌≡◌, refl, sym, ap, ◌∙◌, inl, inr, arith, none, some, ==_iff, &&_iff,
  leb_ℤ, pos, Text, codes, text_eq, text_eq_refl, text_eq_iff, starts_with, text_in, ok, Bool-cases,
}
use mathlib.Core.Path.{subst}
use linux_build.Base.Dict.{lookup, insert, lookup-insert}
use linux_build.Base.Image.{Layout, layout_of, kernel_end}
use linux_build.Base.State.{bind-eq-ok}
use linux_build.Toml.{Value}
use linux_build.Firmware.Equal.{value_eq}
use linux_build.Firmware.Prepare.{
  Request, Codec, Files, expected_offset, mod8, is_placed, identity, inputs, previous, identity_in,
  payload, invalidate, pending, refresh, examine, proceed, main,
}
use linux_build.Firmware.Prepare.Removal.{
  is_built, true≢false, invalidate-identity, invalidate-kept, invalidate-payload,
}

-- What a successful run finds and leaves.
pub record IsPrepared (c : Codec) (r : Request) (before after : Files) : Type 0 where
  pub layout : Layout
  pub read : layout_of r.image ≡ ok layout
  pub offset : layout.text_offset ≡ expected_offset r.bits
  pub below : leb_ℤ (pos (kernel_end layout r.image)) r.fdt_offset ≡ true
  pub aligned : mod8 r.fdt_offset ≡ 0
  pub written : lookup pending after ≡ some (c.dumps (inputs c r) ++ (10 ∷ []))
  -- What was recorded.
  pub prior : Value
  pub prior_identity : Value
  pub recorded : previous c before ≡ ok prior
  pub recorded_identity : identity_in prior ≡ ok prior_identity
  -- Without the same compiler and ISA nothing that was built is left; with the same inputs all is.
  pub rebuilt :
      value_eq prior_identity (identity r) ≡ false
      → (path : Text) → is_built path ≡ true
      → lookup path after ≡ none
  pub relinked :
      value_eq prior_identity (identity r) ≡ true
      → value_eq prior (inputs c r) ≡ false
      → (lookup (payload (codes "o")) after ≡ none)
        × (lookup (payload (codes "elf")) after ≡ none)
        × (lookup (payload (codes "bin")) after ≡ none)
  pub reused :
      value_eq prior_identity (identity r) ≡ true
      → value_eq prior (inputs c r) ≡ true
      → (path : Text) → text_eq path pending ≡ false
      → lookup path after ≡ lookup path before
  pub kept :
      (path : Text)
      → is_built path ≡ false
      → text_eq path pending ≡ false
      → lookup path after ≡ lookup path before

examine-eq-ok :
    (c : Codec) (r : Request) (files : Files) {prior prior_identity : Value}
    → examine c r files ≡ ok (prior, prior_identity)
    → (layout : Layout) × (layout_of r.image ≡ ok layout)
      × (is_placed r layout ≡ true)
      × (previous c files ≡ ok prior)
      × (identity_in prior ≡ ok prior_identity)
unfolding examine
examine-eq-ok c r files h = ground arith

is_built-pending : (path : Text) → is_built path ≡ true → text_eq path pending ≡ false
unfolding starts_with
is_built-pending path h = elim (Bool-cases (text_eq path pending)) [
  | inr e ↦ e
  | inl e ↦ absurd (true≢false (sym h ∙ ap is_built ((text_eq_iff path pending).0 e)))
]

lookup-pending :
    (path text : Text) (files : Files)
    → text_eq path pending ≡ false
    → lookup path (insert pending text files) ≡ lookup path files
lookup-pending path text files ne = rw (lookup-insert, ne)

module _ (c : Codec) (r : Request) where
  after_of : Value → Value → Files → Files
  after_of prior prior_identity files =
      insert pending (c.dumps (inputs c r) ++ (10 ∷ []))
        (invalidate (value_eq prior_identity (identity r)) (value_eq prior (inputs c r)) files)

  IsPrepared-refresh :
      (files : Files) (prior prior_identity : Value) (layout : Layout)
      → layout_of r.image ≡ ok layout
      → is_placed r layout ≡ true
      → previous c files ≡ ok prior
      → identity_in prior ≡ ok prior_identity
      → IsPrepared c r files (after_of prior prior_identity files)
  unfolding after_of is_placed
  IsPrepared-refresh files prior prior_identity layout read placed p q =
      let (offset, rest) = (&&_iff _ _).0 placed in
      let (below, rest') = (&&_iff _ _).0 rest in
      let (aligned, apart) = (&&_iff _ _).0 rest' in
      record {
        layout = layout;
        read = read;
        offset = (==_iff layout.text_offset (expected_offset r.bits)).0 offset;
        below = below;
        aligned = (==_iff (mod8 r.fdt_offset) 0).0 aligned;
        written = rw (lookup-insert, text_eq_refl);
        prior = prior;
        prior_identity = prior_identity;
        recorded = p;
        recorded_identity = q;
        rebuilt = λ other path built.
            lookup-pending path _ _ (is_built-pending path built)
            ∙ rw other
                (invalidate-identity (value_eq prior (inputs c r)) path files ∙ rw built refl);
        relinked = λ same other. (
          lookup-pending (payload (codes "o")) _ _ (unfold text_eq in refl)
              ∙ rw (same, other)
                  (invalidate-payload (codes "o") files (unfold text_in text_eq in refl)),
          lookup-pending (payload (codes "elf")) _ _ (unfold text_eq in refl)
              ∙ rw (same, other)
                  (invalidate-payload (codes "elf") files (unfold text_in text_eq in refl)),
          lookup-pending (payload (codes "bin")) _ _ (unfold text_eq in refl)
              ∙ rw (same, other)
                  (invalidate-payload (codes "bin") files (unfold text_in text_eq in refl)),
        );
        reused = λ same equal path ne.
            lookup-pending path _ _ ne ∙ rw (same, equal) (unfold invalidate in refl);
        kept = λ path built ne.
            lookup-pending path _ _ ne
            ∙ invalidate-kept (value_eq prior_identity (identity r)) (value_eq prior (inputs c r))
                path files built;
      }

  -- When `main` succeeds, the Image is at the offset that OpenSBI has for the word size, its memory ends
  -- below the device tree, which is aligned; the inputs are written down; with another compiler or ISA
  -- than was recorded nothing is left under `platform` and `lib`, with the same but other inputs no
  -- payload, and with the same inputs everything; no other file is touched.
  pub main-IsPrepared :
      (before : Files) {after : Files}
      → main c r before ≡ (after, ok tt)
      → IsPrepared c r before after
  unfolding main proceed refresh
  main-IsPrepared before {after = after} h =
      let (t, found, examined, rest) =
        bind-eq-ok (λ fs. (fs, examine c r fs)) (proceed c r) before h in
      let same : before ≡ t = ap (λ x. x.0) examined in
      let (layout, read, placed, p, q) = examine-eq-ok c r before (ap (λ x. x.1) examined) in
      let made : after_of found.0 found.1 t ≡ after = unfold after_of in (ap (λ x. x.0) rest) in
      subst (IsPrepared c r before) (ap (after_of found.0 found.1) same ∙ made)
        (IsPrepared-refresh before found.0 found.1 layout read placed p q)
