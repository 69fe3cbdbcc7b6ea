-- ===== src/Gate/Recorded.antt =====
-- The record that scripts/check-release.py makes is one of dictionaries, so that it equals itself.
use linux_build.Base.{
  true, List, [], ◌∷◌, none, some, Text, codes, text_eq, text_eq_iff, text_eq_refl, &&_iff, ok,
  >>=-eq-ok, >>-eq-ok, Bool-cases, inl, inr, ◌≡◌, sym, refl, ok-inj, arith, map, remove_prefix,
}
use linux_build.Base.Dict.{Dict, lookup, IsDict, insert-IsDict}
use linux_build.Release.Matrix.{Preset, matrix, arch_of}
use linux_build.Release.Matrix as Matrix
use linux_build.Release.Order.{int10}
use linux_build.Release.Status.{archives_in, same_set}
use linux_build.Gate.Records.{
  Candidate, TestRow, TestResults, Expected, Files, Outside, Options, read, sha, holds, within,
  same_dict, same_candidate,
}
use linux_build.Gate.Packages.{expected_of, results_of, check_package, check_packages}
use linux_build.Gate.{Found, in_dist, check_tests, source_paths, sources_of, evaluate}

holds-some : (k v : Text) (d : Dict Text) → lookup k d ≡ some v → holds k v d ≡ true
unfolding holds
holds-some k v d h = rw (h, holds) (text_eq_refl v)

lookup-tail :
    (j : Text) (w : Text) (d : Dict Text) (k : Text) {v : Text}
    → lookup j d ≡ none
    → lookup k d ≡ some v
    → lookup k ((j, w) ∷ d) ≡ some v
unfolding lookup
lookup-tail j w d k fresh l = elim (Bool-cases (text_eq k j)) [
  | inl same ↦ ground (arith, text_eq_iff k j)
  | inr other ↦ rw other l
]

within-of_lookup :
    (d e : Dict Text)
    → IsDict d
    → ((k v : Text) → lookup k d ≡ some v → lookup k e ≡ some v)
    → within d e ≡ true
unfolding within
within-of_lookup [] e is h = refl
within-of_lookup ((j, w) ∷ d) e is h =
    let head : lookup j ((j, w) ∷ d) ≡ some w = unfold lookup in rw (text_eq_refl j) refl in
    (&&_iff _ _).1 (
      holds-some j w e (h j w head),
      within-of_lookup d e is.1 (λ k v l. h k v (lookup-tail j w d k is.0 l)),
    )

pub same_dict_refl : (d : Dict Text) → IsDict d → same_dict d d ≡ true
unfolding same_dict
same_dict_refl d is = let w = within-of_lookup d d is (λ k v l. l) in (&&_iff _ _).1 (w, w)

expected_of-IsDict :
    (rows : List Matrix.Row) (d : Dict Expected) {expected : Dict Expected}
    → expected_of rows d ≡ ok expected
    → IsDict d
    → IsDict expected
unfolding expected_of
expected_of-IsDict [] d h is = rw (sym (ok-inj h)) is
expected_of-IsDict (row ∷ rows) d h is =
    let (arch, a, h₁) = >>=-eq-ok (arch_of row.preset.cfg) _ h in
    let (bits, b, h₂) = >>=-eq-ok (int10 (remove_prefix (codes "riscv") arch)) _ h₁ in
    expected_of-IsDict rows _ h₂ (insert-IsDict _ _ d is)

module _ (out : Outside) (o : Options) where
  lookup-check_packages :
      (files : Files) (tests : TestResults) (results : Dict TestRow) (expected : Dict Expected)
      (archives : Dict Text) (k : Text)
      → check_packages out o files tests results expected ≡ ok archives
      → lookup k expected ≡ none
      → lookup k archives ≡ none
  unfolding check_packages lookup
  lookup-check_packages files tests results [] archives k h l = rw (sym (ok-inj h)) refl
  lookup-check_packages files tests results ((name, e) ∷ expected) archives k h l =
      let (digest, d, h₁) = >>=-eq-ok (check_package out o files tests results name e) _ h in
      let (more, m, h₂) = >>=-eq-ok (check_packages out o files tests results expected) _ h₁ in
      let ih = lookup-check_packages files tests results expected more k m in
      rw (sym (ok-inj h₂)) (ground (arith, ih))

  check_packages-IsDict :
      (files : Files) (tests : TestResults) (results : Dict TestRow) (expected : Dict Expected)
      (archives : Dict Text)
      → check_packages out o files tests results expected ≡ ok archives
      → IsDict expected
      → IsDict archives
  unfolding check_packages
  check_packages-IsDict files tests results [] archives h is = rw (sym (ok-inj h)) tt
  check_packages-IsDict files tests results ((name, e) ∷ expected) archives h is =
      let (digest, d, h₁) = >>=-eq-ok (check_package out o files tests results name e) _ h in
      let (more, m, h₂) = >>=-eq-ok (check_packages out o files tests results expected) _ h₁ in
      rw (sym (ok-inj h₂)) (
        lookup-check_packages files tests results expected more name m is.0,
        check_packages-IsDict files tests results expected more m is.1,
      )

  sources_of-IsDict :
      (files : Files) (paths : List Text) (d : Dict Text) {source : Dict Text}
      → sources_of out o files paths d ≡ ok source
      → IsDict d
      → IsDict source
  unfolding sources_of
  sources_of-IsDict files [] d h is = rw (sym (ok-inj h)) is
  sources_of-IsDict files (path ∷ paths) d h is =
      let (hash, e, h₁) = >>=-eq-ok (sha out path files) _ h in
      sources_of-IsDict files paths _ h₁ (insert-IsDict _ _ d is)

  same_candidate_refl :
      (c : Candidate) → IsDict c.archives → IsDict c.source_files → same_candidate c c ≡ true
  unfolding same_candidate
  same_candidate_refl c a s = ground (
    arith,
    same_dict_refl c.archives a,
    same_dict_refl c.source_files s,
    text_eq_refl c.test_results_sha256,
  )

  pub evaluate-same :
      (presets : List Preset) (files : Files) {found : Found}
      → evaluate out o presets files ≡ ok found
      → same_candidate found.candidate found.candidate ≡ true
  unfolding evaluate
  evaluate-same presets files {found} h =
      let (rows, r, h₁) = >>=-eq-ok (matrix presets) _ h in
      let (expected, e, h₂) = >>=-eq-ok (expected_of rows []) _ h₁ in
      let names : List Text = map (λ entry. entry.0) expected in
      let (same, h₃) = >>-eq-ok (same_set names (archives_in o.dist files)) _ _ h₂ in
      let (written, w, h₄) =
        >>=-eq-ok (read (in_dist out o (codes "test-results.json")) files) _ h₃ in
      let (tests, t, h₅) = >>=-eq-ok (out.read_tests written) _ h₄ in
      let (u, whole, h₆) = >>=-eq-ok (check_tests out o files tests expected) _ h₅ in
      let (archives, p, h₇) =
        >>=-eq-ok (check_packages out o files tests (results_of tests.results []) expected) _ h₆ in
      let (source, s, h₈) = >>=-eq-ok (sources_of out o files (source_paths out o files) []) _ h₇ in
      rw (sym (ok-inj h₈)) (
        same_candidate_refl _
          (check_packages-IsDict files tests _ expected archives p
            (expected_of-IsDict rows [] e tt))
          (sources_of-IsDict files _ [] s tt))
