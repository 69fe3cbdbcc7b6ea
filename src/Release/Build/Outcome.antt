-- ===== src/Release/Build/Outcome.antt =====
-- What the exit code of scripts/build-release.py says of the recorded packages.
use mathlib.Core.Path.{subst}
use linux_build.Base.{
  ℕ, suc, Bool, true, false, [], ◌∷◌, ◌++◌, ◌≡◌, ◌≢◌, refl, sym, ap, ◌∙◌, inl, inr, arith, none,
  some, ℤ, pos, negsuc, text_eq_refl, Text, Result, ok, err, Bool-cases,
}
use linux_build.Base.Dict.{lookup, lookup-insert}
use linux_build.Base.State.{lift, bind-eq-ok, lift-eq-ok}
use linux_build.Release.Matrix.{Preset, package_name}
use linux_build.Release.Status.{
  Item, Status, World, Outside, Options, Step, going, failed, is_zero, archive_name, begun,
  with_packages, with_end,
}
use linux_build.Release.Build.{
  archive_path, result_path, save, sha_of, run, record_reuse, record_failure, record_success, begin,
  check_reuse, build_named, reuse, after_build, build, build_variant,
}

-- The package is there: its build, or its reuse, has succeeded, and its hash is recorded.
pub record IsDone (item : Item) : Type 0 where
  pub code : item.returncode ≡ some (pos 0)
  pub hash : (digest : Text) × (item.sha256 ≡ some digest)
  pub ended : (end : ℕ) × (item.finished ≡ some end)

-- The build has failed: its exit code is another one, and no hash is recorded.
pub record IsBroken (item : Item) : Type 0 where
  pub code : (code : ℤ) × (item.returncode ≡ some code) × (code ≢ pos 0)
  pub no_hash : item.sha256 ≡ none

pub is_zero-pos : (c : ℤ) → is_zero c ≡ true → c ≡ pos 0
is_zero-pos (pos n) h = ap pos (ground arith)
is_zero-pos (negsuc n) h = cc

not_zero : (c : ℤ) → is_zero c ≡ false → c ≢ pos 0
not_zero c h e = absurd (false≢true (sym h ∙ ap is_zero e))
  where
    false≢true : false ≡ true → ⊥
    false≢true h = cc

module _ (out : Outside) (o : Options) where
  -- The record in the folder is this one.
  abbrev pub Recorded : World → Status → Type 0
  Recorded w status = lookup (result_path out o) w.files ≡ some (out.dumps status)

  -- One package more, with which the loop goes on or stops.
  pub data Advance (archive : Text) (status : Status) (w : World) : Step → Type 0 where
    done :
        (item : Item)
        → item.archive ≡ archive
        → IsDone item
        → Advance archive status w (going (with_packages status (status.packages ++ (item ∷ []))))
    broken :
        (item : Item) (end : ℕ)
        → IsBroken item
        → Recorded w
            (with_end (with_packages status (status.packages ++ (item ∷ []))) status.pass end)
        → Advance archive status w (
            failed
              (with_end (with_packages status (status.packages ++ (item ∷ []))) status.pass end))

  abbrev Advanced : Text → Status → World × Result Step → Type 0
  Advanced archive status (w, ok step) = Advance archive status w step
  Advanced archive status (w, err fault) = Unit

  recorded : (w : World) (status : Status) → Recorded (save out o status w).0 status
  recorded w status = rw (lookup-insert, text_eq_refl)

  reuse-Advance :
      (status : Status) (item : Item) (name : Text) (w : World) {w' : World} {step : Step}
      → reuse out o status item name w ≡ (w', ok step)
      → Advance item.archive status w' step
  unfolding reuse record_reuse
  reuse-Advance status item name w h =
      let (t, digest, hashed, rest) =
        bind-eq-ok (sha_of out o (archive_path out o name)) (record_reuse out o status item) w h in
      subst (Advanced item.archive status) rest
        (done _ refl (record { code = refl; hash = (_, refl); ended = (_, refl) }))

  after_build-Advance :
      (status : Status) (item : Item) (name : Text) (code : ℤ) (finished : ℕ) (w : World)
      {w' : World} {step : Step}
      → after_build out o status item name code finished w ≡ (w', ok step)
      → Advance item.archive status w' step
  unfolding after_build record_failure record_success
  after_build-Advance status item name code finished w h = elim (Bool-cases (is_zero code)) [
    | inr z ↦ subst (Advanced item.archive status) (rw (z, after_build) at h) (
        broken _ _ (record { code = (code, refl, not_zero code z); no_hash = refl })
          (recorded (record { files = w.files; readings = suc w.readings }) _))
    | inl z ↦
        let (t, digest, hashed, rest) =
          bind-eq-ok (sha_of out o (archive_path out o name))
            (record_success out o status item name code finished) w (rw (z, after_build) at h) in
        subst (Advanced item.archive status) rest (
          done _ refl
            (record { code = ap some (is_zero-pos code z); hash = (_, refl); ended = (_, refl) }))
  ]

  build-Advance :
      (status : Status) (item : Item) (name : Text) (w : World) {w' : World} {step : Step}
      → build out o status item name w ≡ (w', ok step)
      → Advance item.archive status w' step
  unfolding build run
  build-Advance status item name w h = after_build-Advance status item name _ _ _ h

  begin-Advance :
      (status : Status) (item : Item) (name : Text) (b : Bool) (w : World) {w' : World}
      {step : Step}
      → begin out o status item name b w ≡ (w', ok step)
      → Advance item.archive status w' step
  unfolding begin
  begin-Advance status item name true w h = reuse-Advance status item name w h
  begin-Advance status item name false w h = build-Advance status item name w h

  pub build_variant-Advance :
      (preset : Preset) (variant : Text) (status : Status) (w : World) {w' : World} {step : Step}
      → build_variant out o preset variant status w ≡ (w', ok step)
      → (name : Text) × (package_name preset variant ≡ ok name)
        × Advance (archive_name name) status w' step
  unfolding build_variant build_named
  build_variant-Advance preset variant status w h =
      let (t, name, named, h') =
        bind-eq-ok (lift (package_name preset variant)) (build_named out o preset variant status) w
          h in
      let item = begun preset variant name (out.now t.readings) in
      let (u, b, checked, h'') =
        bind-eq-ok (check_reuse out o name) (begin out o status item name) _ h' in
      (
        name,
        (lift-eq-ok (package_name preset variant) w named).0,
        begin-Advance status item name b u h'',
      )
