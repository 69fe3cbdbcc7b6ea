-- ===== src/Release/Build/Made.antt =====
-- A package that scripts/build-release.py reuses or builds, and the hash that it records.
use mathlib.Core.Path.{subst}
use linux_build.Base.{
  ℕ, suc, Bool, true, false, [], ◌∷◌, ◌++◌, ◌≡◌, refl, sym, ap, ◌∙◌, ◌⊎◌, inl, inr, ℤ, pos, some,
  Text, Result, ok, Bool-cases, Option-cases,
}
use linux_build.Base.Dict.{Dict, lookup, insert}
use linux_build.Base.State.{lift, ◌>>=◌, bind-eq-ok, lift-eq-ok, give-eq-ok, fault-gives_nothing}
use linux_build.Release.Matrix.{Preset, package_name}
use linux_build.Release.Status.{
  Item, Status, World, Outside, Options, Step, going, failed, is_zero, archive_name, begun,
}
use linux_build.Release.Build.{
  archive_path, result_path, log_path, command_of, sha_of, run, reusable, record_reuse,
  record_failure, record_success, begin, check_reuse, build_named, reuse, after_build, build,
  build_variant,
}
use linux_build.Release.Build.Outcome.{is_zero-pos}
use linux_build.Release.Build.Reuse.{IsReusable, reusable-IsReusable}

going-inj : {a b : Status} → going a ≡ going b → a ≡ b
going-inj h = cc

failed≢going : {a b : Status} → failed a ≡ going b → ⊥
failed≢going h = cc

module _ (out : Outside) (o : Options) where
  -- The files in which the archive is hashed: those before the step, for a package that may be reused; or those that
  -- `make` leaves with exit code 0, from the files before the step and the record of the package begun.
  abbrev pub IsOrigin : Text → Text → Bool → Dict Text → Dict Text → Type 0
  IsOrigin variant name reused before seen =
      ((reused ≡ true) × (seen ≡ before) × IsReusable out o name before)
      ⊎ ((reused ≡ false)
          × (record_text : Text) × (out.make (log_path out o name) (command_of out o variant)
                (insert (result_path out o) record_text before)
              ≡ (seen, pos 0)))

  -- One package more in the record that is saved, with the hash of its archive.
  pub record IsMade (variant name : Text) (before after : Dict Text) (status status' : Status)
      : Type 0 where
    pub item : Item
    pub added : status'.packages ≡ status.packages ++ (item ∷ [])
    pub archive : item.archive ≡ archive_name name
    pub seen : Dict Text
    pub saved : after ≡ insert (result_path out o) (out.dumps status') seen
    pub content : Text
    pub there : lookup (archive_path out o name) seen ≡ some content
    pub hash : item.sha256 ≡ some (out.sha content)
    pub origin : IsOrigin variant name item.reused before seen

  sha_of-eq-ok :
      (path : Text) (w : World) {w' : World} {h : Text}
      → sha_of out o path w ≡ (w', ok h)
      → (w' ≡ w) × (content : Text) × (lookup path w.files ≡ some content) × (h ≡ out.sha content)
  unfolding sha_of
  sha_of-eq-ok path w h = elim (Option-cases (lookup path w.files)) [
    | inl e ↦ absurd (fault-gives_nothing (rw (e, sha_of) at h))
    | inr (content, e) ↦
        let h' = rw (e, sha_of) at h in (ap (λ x. x.0) (sym h'), content, e, sym (give-eq-ok h'))
  ]

  -- What is saved when the loop goes on.
  abbrev Saved : Status → Text → Bool → Text → Dict Text → World × Result Step → Type 0
  Saved status archive reused digest files (w, ok (going status')) =
      (item : Item) × (status'.packages ≡ status.packages ++ (item ∷ []))
      × (item.archive ≡ archive)
      × (item.reused ≡ reused)
      × (item.sha256 ≡ some digest)
      × (w.files ≡ insert (result_path out o) (out.dumps status') files)
  Saved status archive reused digest files _ = Unit

  -- The archive that was hashed, and what was saved with its hash.
  hashed-IsMade :
      (status status' : Status) (variant name archive digest content : Text) (reused : Bool)
      (before seen : Dict Text) (t w' : World)
      → archive ≡ archive_name name
      → t.files ≡ seen
      → lookup (archive_path out o name) seen ≡ some content
      → digest ≡ out.sha content
      → IsOrigin variant name reused before seen
      → Saved status archive reused digest t.files (w', ok (going status'))
      → IsMade variant name before w'.files status status'
  hashed-IsMade status status' variant name archive digest content reused before seen t w' a same
        there d origin (item, added, is_archive, is_reused, has_hash, saved) =
      record {
        item = item;
        added = added;
        archive = is_archive ∙ a;
        seen = seen;
        saved = saved ∙ ap (insert (result_path out o) (out.dumps status')) same;
        content = content;
        there = there;
        hash = has_hash ∙ ap some d;
        origin = subst (λ r. IsOrigin variant name r before seen) (sym is_reused) origin;
      }

  reuse-IsMade :
      (status : Status) (item : Item) (variant name : Text) (w : World) {w' : World}
      {status' : Status}
      → item.archive ≡ archive_name name
      → IsReusable out o name w.files
      → reuse out o status item name w ≡ (w', ok (going status'))
      → IsMade variant name w.files w'.files status status'
  unfolding reuse record_reuse
  reuse-IsMade status item variant name w {w'} {status'} a is h =
      let (t, digest, hashed, rest) =
        bind-eq-ok (sha_of out o (archive_path out o name)) (record_reuse out o status item) w h in
      let (same, content, there, d) = sha_of-eq-ok (archive_path out o name) w hashed in
      hashed-IsMade status status' variant name item.archive digest content true w.files w.files t
        w' a (ap (λ x. x.files) same) there d (inl (refl, refl, is))
        (subst (Saved status item.archive true digest t.files) rest
          (_, refl, refl, refl, refl, refl))

  record_success-IsMade :
      (status : Status) (item : Item) (name record_text : Text) (code : ℤ) (finished : ℕ)
      (before : Dict Text) (w : World) {w' : World} {status' : Status}
      → item.archive ≡ archive_name name
      → code ≡ pos 0
      → out.make
          (log_path out o name)
          (command_of out o item.variant)
          (insert (result_path out o) record_text before)
        ≡ (w.files, code)
      → (sha_of out o (archive_path out o name)
            >>= record_success out o status item name code finished)
          w
        ≡ (w', ok (going status'))
      → IsMade item.variant name before w'.files status status'
  unfolding record_success
  record_success-IsMade status item name record_text code finished before w {w'} {status'} a z made
        h =
      let (t, digest, hashed, rest) =
        bind-eq-ok (sha_of out o (archive_path out o name))
          (record_success out o status item name code finished) w h in
      let (same, content, there, d) = sha_of-eq-ok (archive_path out o name) w hashed in
      hashed-IsMade status status' item.variant name item.archive digest content false before
        w.files t w' a (ap (λ x. x.files) same) there d
        (inr (refl, record_text, made ∙ ap (λ c. (w.files, c)) z))
        (subst (Saved status item.archive false digest t.files) rest
          (_, refl, refl, refl, refl, refl))

  after_build-IsMade :
      (status : Status) (item : Item) (name record_text : Text) (code : ℤ) (finished : ℕ)
      (before : Dict Text) (w : World) {w' : World} {status' : Status}
      → item.archive ≡ archive_name name
      → out.make
          (log_path out o name)
          (command_of out o item.variant)
          (insert (result_path out o) record_text before)
        ≡ (w.files, code)
      → after_build out o status item name code finished w ≡ (w', ok (going status'))
      → IsMade item.variant name before w'.files status status'
  unfolding after_build record_failure
  after_build-IsMade status item name record_text code finished before w a made h =
      elim (Bool-cases (is_zero code)) [
        | inr z ↦ absurd (failed≢going (give-eq-ok (rw (z, after_build) at h)))
        | inl z ↦
            record_success-IsMade status item name record_text code finished before w a
              (is_zero-pos code z) made (rw (z, after_build) at h)
      ]

  build-IsMade :
      (status : Status) (item : Item) (name : Text) (w : World) {w' : World} {status' : Status}
      → item.archive ≡ archive_name name
      → build out o status item name w ≡ (w', ok (going status'))
      → IsMade item.variant name w.files w'.files status status'
  unfolding build run
  build-IsMade status item name w a h = after_build-IsMade status item name _ _ _ w.files _ a refl h

  begin-IsMade :
      (status : Status) (item : Item) (name : Text) (b : Bool) (w : World) {w' : World}
      {status' : Status}
      → item.archive ≡ archive_name name
      → reusable out o name w.files ≡ ok b
      → begin out o status item name b w ≡ (w', ok (going status'))
      → IsMade item.variant name w.files w'.files status status'
  unfolding begin
  begin-IsMade status item name true w a r h =
      reuse-IsMade status item item.variant name w a (reusable-IsReusable out o name w.files r) h
  begin-IsMade status item name false w a r h = build-IsMade status item name w a h

  -- When the step of a package goes on to the next, the record that it saves has one item more, with the hash of the
  -- archive as it then is: it was there before, under `--resume`, with a manifest of which every build input is
  -- a file with the recorded hash, and the item says that it is reused; or `make` has just ended with exit
  -- code 0, and the item says that it is not reused.
  pub build_variant-IsMade :
      (preset : Preset) (variant : Text) (status : Status) (w : World) {w' : World}
      {status' : Status}
      → build_variant out o preset variant status w ≡ (w', ok (going status'))
      → (name : Text) × (package_name preset variant ≡ ok name)
        × IsMade variant name w.files w'.files status status'
  unfolding build_variant build_named
  build_variant-IsMade preset variant status w {w'} {status'} h =
      let (t, name, named, h₁) =
        bind-eq-ok (lift (package_name preset variant)) (build_named out o preset variant status) w
          h in
      let item = begun preset variant name (out.now t.readings) in
      let timed : World = record { files = t.files; readings = suc t.readings } in
      let (u, b, checked, h₂) =
        bind-eq-ok (check_reuse out o name) (begin out o status item name) timed h₁ in
      let (is_name, same) = lift-eq-ok (package_name preset variant) w named in
      let world : timed ≡ u = ap (λ x. x.0) checked in
      let made =
        begin-IsMade status item name b u refl
          (subst (λ x. reusable out o name x.files ≡ ok b) world (ap (λ x. x.1) checked)) h₂ in
      let before : u.files ≡ w.files =
        ap (λ x. x.files) (sym world) ∙ ap (λ x. x.files) (sym same) in
      (name, is_name, subst (λ fs. IsMade variant name fs w'.files status status') before made)
