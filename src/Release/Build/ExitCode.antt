-- ===== src/Release/Build/ExitCode.antt =====
-- What the exit code of scripts/build-release.py says.
use mathlib.Core.Path.{subst}
use linux_build.Base.{
  ℕ, zero, suc, true, false, List, [], ◌∷◌, ◌++◌, ◌≡◌, refl, sym, ap, ◌∙◌, Result, ok, err, map,
  All, Bool-cases, inl, inr, text_eq_refl,
}
use linux_build.Base.Dict.{lookup-insert}
use linux_build.Base.State.{lift, bind-eq-ok, lift-eq-ok, fault-gives_nothing}
use linux_build.Release.Matrix.{Preset, Row, all_rows, count_packages}
use linux_build.Release.Order.{sort_configs}
use linux_build.Release.Status.{
  Item, Status, World, Outside, Options, Step, archives_in, same_set, positive, with_end,
}
use linux_build.Release.Build.{
  build_presets, save, conclude, after_loop, initial, build_all, main, main_on, conclude_with,
}
use linux_build.Release.Build.Outcome.{IsDone, IsBroken, Recorded}
use linux_build.Release.Build.Loop.{row_archive, Progress, went, stopped, build_presets-Progress}

module _ (out : Outside) (o : Options) where
  -- What exit code 0 stands for.
  pub record IsComplete (presets : List Preset) (w : World) : Type 0 where
    pub configs : List Preset
    pub in_order : sort_configs presets ≡ ok configs
    pub rows : List Row
    pub matrix : all_rows configs ≡ ok rows
    pub status : Status
    pub saved : Recorded out o w status
    pub passes : status.pass ≡ true
    pub archives : map (λ item. item.archive) status.packages ≡ map row_archive rows
    pub done : All IsDone status.packages
    -- The files that the archives were counted in; after them the record alone is written.
    pub counted : World
    pub files : w.files ≡ (save out o status counted).0.files
    pub complete : same_set (archives_in o.dist counted.files) (map row_archive rows) ≡ true

  -- What exit code 1 stands for.
  pub record IsStopped (w : World) : Type 0 where
    pub status : Status
    pub saved : Recorded out o w status
    pub fails : status.pass ≡ false
    pub before : List Item
    pub bad : Item
    pub packages : status.packages ≡ before ++ (bad ∷ [])
    pub done : All IsDone before
    pub broken : IsBroken bad

  abbrev Meant : List Preset → World → ℕ → Type 0
  Meant presets w zero = IsComplete presets w
  Meant presets w (suc n) = IsStopped w

  -- The same for what the loop is given.
  abbrev MeantFrom : Result (List Row) → World × Result ℕ → Type 0
  MeantFrom rows (w, err fault) = Unit
  MeantFrom rows (w, ok (suc n)) = IsStopped w
  MeantFrom rows (w, ok zero) =
      (made : List Row) × (rows ≡ ok made)
      × (status : Status) × Recorded out o w status
      × (status.pass ≡ true)
      × (map (λ item. item.archive) status.packages ≡ map row_archive made)
      × All IsDone status.packages
      × (counted : World) × (w.files ≡ (save out o status counted).0.files)
      × (same_set (archives_in o.dist counted.files) (map row_archive made) ≡ true)

  recorded : (w : World) (status : Status) → Recorded out o (save out o status w).0 status
  recorded w status = rw (lookup-insert, text_eq_refl)

  conclude_with-MeantFrom :
      (rows : Result (List Row)) (made : List Row) (status : Status) (w : World) {w' : World}
      {code : ℕ}
      → rows ≡ ok made
      → map (λ item. item.archive) status.packages ≡ map row_archive made
      → All IsDone status.packages
      → conclude_with out o status (archives_in o.dist w.files) w ≡ (w', ok code)
      → MeantFrom rows (w', ok code)
  unfolding conclude_with
  conclude_with-MeantFrom rows made status w r a d h =
      elim (Bool-cases
        (same_set (archives_in o.dist w.files) (map (λ item. item.archive) status.packages))) [
          | inr e ↦ absurd (fault-gives_nothing (rw (e, conclude_with) at h))
          | inl e ↦
              let after : World = record { files = w.files; readings = suc w.readings } in
              let last = with_end status true (out.now w.readings) in
              subst (MeantFrom rows) (rw (e, conclude_with) at h)
                (made, r, last, recorded after last, refl, a, d, after, refl, rw a at e)
        ]

  after_loop-MeantFrom :
      (rows : Result (List Row)) (started count : ℕ) (t : World) (step : Step) {w' : World}
      {code : ℕ}
      → Progress out o rows (initial out o started count) t step
      → after_loop out o step t ≡ (w', ok code)
      → MeantFrom rows (w', ok code)
  unfolding after_loop conclude
  after_loop-MeantFrom rows started count t _ (stopped items bad status e p d b saved) h =
      subst (MeantFrom rows) h (record {
        status = status;
        saved = saved;
        fails = p;
        before = items;
        bad = bad;
        packages = e;
        done = d;
        broken = b;
      })
  after_loop-MeantFrom rows started count t _ (went items made status r e p d a) h =
      conclude_with-MeantFrom rows made status t r (ap (map (λ item. item.archive)) e ∙ a)
        (subst (All IsDone) (sym e) d) h

  build_all-MeantFrom :
      (configs : List Preset) (started count : ℕ) (w : World) {w' : World} {code : ℕ}
      → build_all out o configs started count w ≡ (w', ok code)
      → MeantFrom (all_rows configs) (w', ok code)
  unfolding build_all
  build_all-MeantFrom configs started count w h =
      let begun = initial out o started count in
      let (t, step, looped, rest) =
        bind-eq-ok (build_presets out o configs begun) (after_loop out o) (save out o begun w).0
          h in
      after_loop-MeantFrom (all_rows configs) started count t step
        (build_presets-Progress out o configs begun _ looped) rest

  main_on-MeantFrom :
      (configs : List Preset) (w : World) {w' : World} {code : ℕ}
      → main_on out o configs w ≡ (w', ok code)
      → MeantFrom (all_rows configs) (w', ok code)
  unfolding main_on
  main_on-MeantFrom configs w h =
      let started = out.now w.readings in
      let (t, count, counted, rest) =
        bind-eq-ok (lift (count_packages configs)) (build_all out o configs started)
          (record { files = w.files; readings = suc w.readings }) h in
      build_all-MeantFrom configs started count t rest

  Meant-of_MeantFrom :
      (presets configs : List Preset) (w : World) (code : ℕ)
      → sort_configs presets ≡ ok configs
      → MeantFrom (all_rows configs) (w, ok code)
      → Meant presets w code
  Meant-of_MeantFrom presets configs w zero e (made, r, status, sv, p, a, d, counted, f, c) =
      record {
        configs = configs;
        in_order = e;
        rows = made;
        matrix = r;
        status = status;
        saved = sv;
        passes = p;
        archives = a;
        done = d;
        counted = counted;
        files = f;
        complete = c;
      }
  Meant-of_MeantFrom presets configs w (suc n) e m = m

  -- If `main` exits with 0, the record in the folder passes: it has one package for each row of the
  -- matrix, in the order of the build, every one built or reused with success and with some hash in it, and
  -- the archives in the folder were those of the matrix and no others. If it exits with 1, the record
  -- does not pass, and it ends with a package whose build failed, behind packages that succeeded.
  pub main-Meant :
      (presets : List Preset) (w : World) {w' : World} {code : ℕ}
      → main out o presets w ≡ (w', ok code)
      → Meant presets w' code
  unfolding main
  main-Meant presets w {w' = w'} {code = code} h = elim (Bool-cases (positive o.jobs)) [
    | inr e ↦ absurd (fault-gives_nothing (rw (e, main) at h))
    | inl e ↦
        let (t, configs, sorted, rest) =
          bind-eq-ok (lift (sort_configs presets)) (main_on out o) w (rw (e, main) at h) in
        Meant-of_MeantFrom presets configs w' code (lift-eq-ok (sort_configs presets) w sorted).0
          (main_on-MeantFrom configs t rest)
  ]
