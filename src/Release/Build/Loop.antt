-- ===== src/Release/Build/Loop.antt =====
-- What the loops of scripts/build-release.py leave in the status.
use mathlib.Core.Path.{subst}
use mathlib.Core.List.{append_assoc, append-nil, map-append}
use linux_build.Base.{
  List, [], ◌∷◌, ◌++◌, ◌≡◌, refl, sym, ap, ◌∙◌, Text, Result, ok, err, map, All, All-append,
}
use linux_build.Base.State.{Action, ◌>>=◌, lift, bind-eq-ok, lift-eq-ok}
use linux_build.Release.Matrix.{Preset, Row, variants, rows_of, all_rows}
use linux_build.Release.Status.{
  Item, Status, World, Outside, Options, Step, going, failed, archive_name,
}
use linux_build.Release.Build.{
  build_variant, on_going, build_variants, configure, build_all_variants, build_presets,
}
use linux_build.Release.Build.Outcome.{IsDone, IsBroken, Recorded, Advance, build_variant-Advance}
use linux_build.Release.Build.Outcome.{done, broken}

-- The file name of a row's archive.
abbrev pub row_archive : Row → Text
row_archive row = archive_name row.name

module _ (out : Outside) (o : Options) where
  -- The loop has gone through, with one package for each row; or it has stopped at a package that
  -- failed, behind packages that are there.
  pub data Progress (rows : Result (List Row)) (status : Status) (w : World) : Step → Type 0 where
    went :
        (items : List Item) (made : List Row) (status' : Status)
        → rows ≡ ok made
        → status'.packages ≡ status.packages ++ items
        → status'.pass ≡ status.pass
        → All IsDone items
        → map (λ item. item.archive) items ≡ map row_archive made
        → Progress rows status w (going status')
    stopped :
        (items : List Item) (bad : Item) (status' : Status)
        → status'.packages ≡ status.packages ++ (items ++ (bad ∷ []))
        → status'.pass ≡ status.pass
        → All IsDone items
        → IsBroken bad
        → Recorded out o w status'
        → Progress rows status w (failed status')

  -- More items in front of those of a loop.
  Progress-items :
      (status mid : Status) (items : List Item) (front : List Row) (rows rows' : Result (List Row))
      (w : World) {step : Step}
      → mid.packages ≡ status.packages ++ items
      → mid.pass ≡ status.pass
      → All IsDone items
      → map (λ item. item.archive) items ≡ map row_archive front
      → ((made : List Row) → rows ≡ ok made → rows' ≡ ok (front ++ made))
      → Progress rows mid w step
      → Progress rows' status w step
  Progress-items status mid items front rows rows' w e p d a r
        (went items' made status' rs es ps ds arcs) =
      went (items ++ items') (front ++ made) status' (r made rs)
        (es ∙ ap (λ x. x ++ items') e ∙ append_assoc status.packages items items') (ps ∙ p)
        (All-append IsDone items items' d ds)
        (map-append (λ item. item.archive) items items'
          ∙ ap (λ x. x ++ map (λ item. item.archive) items') a
          ∙ ap (λ x. map row_archive front ++ x) arcs
          ∙ sym (map-append row_archive front made))
  Progress-items status mid items front rows rows' w e p d a r
        (stopped items' bad status' es ps ds b sv) =
      stopped (items ++ items') bad status'
        (es
          ∙ ap (λ x. x ++ (items' ++ (bad ∷ []))) e
          ∙ append_assoc status.packages items (items' ++ (bad ∷ []))
          ∙ ap (λ x. status.packages ++ x) (sym (append_assoc items items' (bad ∷ []))))
        (ps ∙ p) (All-append IsDone items items' d ds) b sv

  abbrev Progressed : Result (List Row) → Status → World × Result Step → Type 0
  Progressed rows status (w, ok step) = Progress rows status w step
  Progressed rows status (w, err fault) = Unit

  -- A step, and the rest of the loop on what it leaves.
  on_going-Progress :
      (next : Status → Action World Step) (status : Status) (row : Row)
      (rows rows' : Result (List Row)) (t : World) (first : Step) {w' : World} {step : Step}
      → Advance out o (row_archive row) status t first
      → ((made : List Row) → rows ≡ ok made → rows' ≡ ok (row ∷ made))
      → ((mid : Status) → next mid t ≡ (w', ok step) → Progress rows mid w' step)
      → on_going out o next first t ≡ (w', ok step)
      → Progress rows' status w' step
  unfolding on_going
  on_going-Progress next status row rows rows' t _ (done item a d) r ih h =
      Progress-items status _ (item ∷ []) (row ∷ []) rows rows' _ refl refl (d, tt)
        (ap (λ x. x ∷ []) a) r (ih _ h)
  on_going-Progress next status row rows rows' t _ (broken item end b saved) r ih h =
      subst (Progressed rows' status) h (stopped [] item _ refl refl tt b saved)

  build_variants-Progress :
      (preset : Preset) (vs : List Text) (status : Status) (w : World) {w' : World} {step : Step}
      → build_variants out o preset vs status w ≡ (w', ok step)
      → Progress (rows_of preset vs) status w' step
  unfolding build_variants rows_of
  build_variants-Progress preset [] status w h =
      subst (Progressed (ok []) status) h
        (went [] [] status refl (sym (append-nil status.packages)) refl tt refl)
  build_variants-Progress preset (v ∷ vs) status w h =
      let (t, first, made, rest) =
        bind-eq-ok (build_variant out o preset v status)
          (on_going out o (build_variants out o preset vs)) w h in
      let (name, named, advance) = build_variant-Advance out o preset v status w made in
      on_going-Progress (build_variants out o preset vs) status
        (record { preset = preset; variant = v; name = name }) (rows_of preset vs) _ t first advance
        (λ rows e. rw (named, e) refl) (λ mid h'. build_variants-Progress preset vs mid t h') rest

  -- One loop behind another.
  Progress-append :
      (next : Status → Action World Step) (status : Status) (rows rows' both : Result (List Row))
      (t : World) (first : Step) {w' : World} {step : Step}
      → Progress rows status t first
      → ((a b : List Row) → rows ≡ ok a → rows' ≡ ok b → both ≡ ok (a ++ b))
      → ((mid : Status) → next mid t ≡ (w', ok step) → Progress rows' mid w' step)
      → on_going out o next first t ≡ (w', ok step)
      → Progress both status w' step
  unfolding on_going
  Progress-append next status rows rows' both t _ (stopped items bad status' e p d b saved) r ih h =
      subst (Progressed both status) h (stopped items bad status' e p d b saved)
  Progress-append next status rows rows' both t _ (went items made mid rs e p d a) r ih h =
      Progress-items status mid items made rows' both _ e p d a (λ more e'. r made more rs e')
        (ih mid h)

  build_all_variants-Progress :
      (preset : Preset) (status : Status) (next : Status → Action World Step) (ps : List Preset)
      (w : World) {w' : World} {step : Step}
      → ((mid : Status) (t : World)
          → next mid t ≡ (w', ok step)
          → Progress (all_rows ps) mid w' step)
      → build_all_variants out o preset status next w ≡ (w', ok step)
      → Progress (all_rows (preset ∷ ps)) status w' step
  unfolding build_all_variants all_rows
  build_all_variants-Progress preset status next ps w ih h =
      let (t, vs, listed, h') =
        bind-eq-ok (lift (variants preset.cfg))
          (λ vs. build_variants out o preset vs status >>= on_going out o next) w h in
      let (u, first, built, rest) =
        bind-eq-ok (build_variants out o preset vs status) (on_going out o next) t h' in
      let known = (lift-eq-ok (variants preset.cfg) w listed).0 in
      Progress-append next status (rows_of preset vs) (all_rows ps) _ u first
        (build_variants-Progress preset vs status t built) (λ a b ea eb. rw (known, ea, eb) refl)
        (λ mid k. ih mid u k) rest

  pub build_presets-Progress :
      (ps : List Preset) (status : Status) (w : World) {w' : World} {step : Step}
      → build_presets out o ps status w ≡ (w', ok step)
      → Progress (all_rows ps) status w' step
  unfolding build_presets
  build_presets-Progress [] status w h =
      subst (Progressed (all_rows []) status) h (
        went [] [] status (unfold all_rows in refl) (sym (append-nil status.packages)) refl tt refl)
  build_presets-Progress (p ∷ ps) status w h =
      let (t, u, configured, rest) =
        bind-eq-ok (configure out o p)
          (λ _. build_all_variants out o p status (build_presets out o ps)) w h in
      build_all_variants-Progress p status (build_presets out o ps) ps t
        (λ mid t' k. build_presets-Progress ps mid t' k) rest
