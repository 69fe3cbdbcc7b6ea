-- ===== src/Gate/Stale.antt =====
-- What a candidate recorded by scripts/check-release.py has in common with one accepted later.
use linux_build.Base.{
  Bool, Result, Fault, require, ◌>>◌, ◌++◌, true, false, List, [], ◌∷◌, some, Text, codes, text_eq,
  text_eq_iff, text_eq_refl, &&_iff, ok, >>=-eq-ok, >>-eq-ok, require-eq-ok, Option-cases, inl, inr,
  ◌≡◌, sym, ◌∙◌, refl, ap, ok-inj, some-inj, arith, length,
}
use linux_build.Base.Dict.{Dict, lookup, insert, lookup-insert}
use linux_build.Release.Matrix.{Preset}
use linux_build.Gate.Records.{
  Candidate, Files, Outside, Options, read, sha, holds, within, same_dict, same_candidate,
}
use linux_build.Gate.Boots.Passed.{read-eq-ok, read-some}
use linux_build.Gate.Packages.Tested.{holds-lookup}
use linux_build.Gate.Recorded.{evaluate-same}
use linux_build.Gate.Notes.{table_rows, notes}
use linux_build.Gate.{
  Found, in_dist, evaluate, write_candidate, write, compare_record, compare, settle, main,
}

-- What JSON gives back of a record of dictionaries is, as Python values, what was written.
pub record ReadsBack (out : Outside) : Type 0 where
  pub again : Candidate → Text → Candidate
  pub loads-dumps : (c : Candidate) (h : Text) → out.loads (out.dumps c h) ≡ ok (again c h, some h)
  pub same :
      (c : Candidate) (h : Text) → same_candidate c c ≡ true → same_candidate (again c h) c ≡ true

guarded : (b : Bool) (fault : Fault) (x : Result Files) → b ≡ true → (do require b fault; x) ≡ x
guarded b fault x h = rw h refl

within-lookup :
    (d e : Dict Text) (k : Text) {v : Text}
    → within d e ≡ true
    → lookup k d ≡ some v
    → lookup k e ≡ some v
unfolding within lookup
within-lookup [] e k h l = cc
within-lookup ((j, w) ∷ d) e k {v = v} h l =
    let both = (&&_iff (holds j w e) (within d e)).0 h in
    let first : holds j w e ≡ true = both.0 in
    let rest : within d e ≡ true = both.1 in
    ground (arith, text_eq_iff k j, holds-lookup j w e first, within-lookup d e k {v = v} rest)

-- Equal dictionaries give the same for each key.
same_dict-lookup : (d e : Dict Text) → same_dict d e ≡ true → (k : Text) → lookup k d ≡ lookup k e
unfolding same_dict
same_dict-lookup d e h k =
    let (there, back) = (&&_iff _ _).0 h in
    elim (Option-cases (lookup k d)) [
      | inr (v, p) ↦ p ∙ sym (within-lookup d e k there p)
      | inl p ↦ elim (Option-cases (lookup k e)) [
        | inl q ↦ p ∙ sym q
        | inr (w, q) ↦ within-lookup e d k back q ∙ sym q
      ]
    ]

text_eq-append : (p a b : Text) → text_eq (p ++ a) (p ++ b) ≡ text_eq a b
text_eq-append [] a b = refl
text_eq-append (c ∷ p) a b = ground (
  arith,
  text_eq_iff (p ++ a) (p ++ b),
  text_eq_iff a b,
  text_eq_iff (c ∷ (p ++ a)) (c ∷ (p ++ b)),
  text_eq-append p a b,
)

module _ (out : Outside) (o : Options) where
  -- The three files that a run with `--write` leaves, by their names.
  pub record HasRecord (files : Files) (found : Found) (text : Text) : Type 0 where
    pub ready :
        lookup (in_dist out o (codes "release-ready.json")) files
        ≡ some (out.dumps found.candidate (out.sha text))
    pub notes : lookup (in_dist out o (codes "release-notes.md")) files ≡ some text
    pub sums : lookup (in_dist out o (codes "SHA256SUMS")) files ≡ some found.checksums

  apart : (a b : Text) → text_eq a b ≡ false → text_eq (in_dist out o a) (in_dist out o b) ≡ false
  apart a b h = text_eq-append o.dist (b'/' ∷ a) (b'/' ∷ b) ∙ text_eq-append (b'/' ∷ []) a b ∙ h

  lookup-insert_apart :
      (a b : Text) (c : Text) (files : Files)
      → text_eq a b ≡ false
      → lookup (in_dist out o a) (insert (in_dist out o b) c files) ≡ lookup (in_dist out o a) files
  lookup-insert_apart a b c files h =
      lookup-insert (in_dist out o b) (in_dist out o a) c files ∙ rw (apart a b h) refl

  lookup-insert_self :
      (a : Text) (c : Text) (files : Files)
      → lookup (in_dist out o a) (insert (in_dist out o a) c files) ≡ some c
  lookup-insert_self a c files =
      lookup-insert (in_dist out o a) (in_dist out o a) c files
      ∙ rw (text_eq_refl (in_dist out o a)) refl

  write_candidate-HasRecord :
      (found : Found) (text : Text) (files : Files)
      → HasRecord (write_candidate out o found text files) found text
  unfolding write_candidate text_eq
  write_candidate-HasRecord found text files = record {
    ready = lookup-insert_self _ _ _;
    notes =
        lookup-insert_apart (codes "release-notes.md") (codes "release-ready.json") _ _ refl
        ∙ lookup-insert_self _ _ _;
    sums =
        lookup-insert_apart (codes "SHA256SUMS") (codes "release-ready.json") _ _ refl
        ∙ lookup-insert_apart (codes "SHA256SUMS") (codes "release-notes.md") _ _ refl
        ∙ lookup-insert_self _ _ _;
  }

  -- The three files are there as the run left them.
  pub record IsKept (written later : Files) : Type 0 where
    pub ready :
        lookup (in_dist out o (codes "release-ready.json")) later
        ≡ lookup (in_dist out o (codes "release-ready.json")) written
    pub notes :
        lookup (in_dist out o (codes "release-notes.md")) later
        ≡ lookup (in_dist out o (codes "release-notes.md")) written
    pub sums :
        lookup (in_dist out o (codes "SHA256SUMS")) later
        ≡ lookup (in_dist out o (codes "SHA256SUMS")) written

  kept-HasRecord :
      {written later : Files} {found : Found} {text : Text}
      → IsKept written later
      → HasRecord written found text
      → HasRecord later found text
  kept-HasRecord k r = record {
    ready = k.ready ∙ r.ready;
    notes = k.notes ∙ r.notes;
    sums = k.sums ∙ r.sums;
  }

  write-HasRecord :
      (found : Found) (files : Files) {files' : Files}
      → write out o found files ≡ ok files'
      → (text : Text) × HasRecord files' found text
  unfolding write
  write-HasRecord found files h =
      let (rows, r, rest) = >>=-eq-ok (table_rows found.expected) _ h in
      let text : Text = notes (length found.candidate.archives) rows in
      (text, rw (sym (ok-inj rest)) (write_candidate-HasRecord found text files))

  -- What the two candidates agree on.
  pub record Agree (first second : Found) : Type 0 where
    pub checksums : first.checksums ≡ second.checksums
    pub archives :
        (name : Text) → lookup name first.candidate.archives ≡ lookup name second.candidate.archives
    pub tests : first.candidate.test_results_sha256 ≡ second.candidate.test_results_sha256
    pub sources :
        (path : Text)
        → lookup path first.candidate.source_files ≡ lookup path second.candidate.source_files

  -- The fields of two equal records.
  record IsSame (a b : Candidate) : Type 0 where
    archives : same_dict a.archives b.archives ≡ true
    tests : text_eq a.test_results_sha256 b.test_results_sha256 ≡ true
    sources : same_dict a.source_files b.source_files ≡ true

  same_candidate-IsSame : (a b : Candidate) → same_candidate a b ≡ true → IsSame a b
  unfolding same_candidate
  same_candidate-IsSame a b h =
      let (h₁, sources) = (&&_iff _ _).0 h in
      let (h₂, tests) = (&&_iff _ _).0 h₁ in
      let (h₃, archives) = (&&_iff _ _).0 h₂ in
      record { archives = archives; tests = tests; sources = sources }

  agree :
      (first second : Found) (c : Candidate)
      → first.checksums ≡ second.checksums
      → same_candidate c first.candidate ≡ true
      → same_candidate c second.candidate ≡ true
      → Agree first second
  agree first second c e p q =
      let a = same_candidate-IsSame c first.candidate p in
      let b = same_candidate-IsSame c second.candidate q in
      record {
        checksums = e;
        archives = λ name.
            sym (same_dict-lookup _ _ a.archives name) ∙ same_dict-lookup _ _ b.archives name;
        tests = sym ((text_eq_iff _ _).0 a.tests) ∙ (text_eq_iff _ _).0 b.tests;
        sources =
            λ path. sym (same_dict-lookup _ _ a.sources path) ∙ same_dict-lookup _ _ b.sources path;
      }

  compare_record-same :
      (found : Found) (hash : Text) (c : Candidate) (g : Text)
      → compare_record out o found hash (c, some g) ≡ ok tt
      → same_candidate c found.candidate ≡ true
  unfolding compare_record
  compare_record-same found hash c g h =
      let (same, rest) = >>-eq-ok (text_eq g hash) _ _ h in require-eq-ok _ _ rest

  compare-Agree :
      ReadsBack out
      → (first second : Found) (text : Text) (later : Files) → HasRecord later first text
      → same_candidate first.candidate first.candidate ≡ true
      → compare out o second later ≡ ok tt
      → Agree first second
  unfolding compare
  compare-Agree json first second text later r own h =
      let (ready, e, h₁) =
        >>=-eq-ok (read (in_dist out o (codes "release-ready.json")) later) _ h in
      let (previous, p, h₂) = >>=-eq-ok (out.loads ready) _ h₁ in
      let (sums, s, h₃) = >>=-eq-ok (read (in_dist out o (codes "SHA256SUMS")) later) _ h₂ in
      let (same, h₄) = >>-eq-ok (text_eq sums second.checksums) _ _ h₃ in
      let (hash, n, h₅) =
        >>=-eq-ok (sha out (in_dist out o (codes "release-notes.md")) later) _ h₄ in
      let is_ready = some-inj (sym (read-eq-ok _ later e) ∙ r.ready) in
      let is_sums = some-inj (sym (read-eq-ok _ later s) ∙ r.sums) in
      let c : Candidate = json.again first.candidate (out.sha text) in
      let is_previous =
        ok-inj (sym p ∙ ap out.loads is_ready ∙ json.loads-dumps first.candidate (out.sha text)) in
      agree first second c (sym is_sums ∙ (text_eq_iff _ _).0 same)
        (json.same first.candidate (out.sha text) own)
        (compare_record-same second hash c (out.sha text) (rw is_previous at h₅))

  settle-eq-ok :
      (found : Found) (later : Files) {later' : Files}
      → settle out o false found later ≡ ok later'
      → (compare out o found later ≡ ok tt) × (later' ≡ later)
  unfolding settle
  settle-eq-ok found later h =
      let (u, v, rest) = >>=-eq-ok (compare out o found later) _ h in (v, sym (ok-inj rest))

  -- Let a run with `--write` succeed, and later, with the three files as they were left, one without it. Then the
  -- later run changes nothing, and what it found has the checksums, the digest of each archive, the hash of the
  -- test results and the hash of each source file that were recorded.
  pub main-Agree :
      ReadsBack out
      → (presets presets' : List Preset) (files written later : Files) {later' : Files}
      → main out o true presets files ≡ ok written
      → IsKept written later
      → main out o false presets' later ≡ ok later'
      → (later' ≡ later)
        × (first : Found) × (second : Found) × (evaluate out o presets files ≡ ok first)
        × (evaluate out o presets' later ≡ ok second)
        × Agree first second
  unfolding main settle
  main-Agree json presets presets' files written later h k h' =
      let (on, h₁) = >>-eq-ok o.debug _ _ h in
      let (on', h₂) = >>-eq-ok o.debug _ _ h' in
      let (first, e, w) = >>=-eq-ok (evaluate out o presets files) _ h₁ in
      let (second, e', v) = >>=-eq-ok (evaluate out o presets' later) _ h₂ in
      let (text, r) = write-HasRecord first files w in
      let (accepted, same) = settle-eq-ok second later v in
      (
        same,
        first,
        second,
        e,
        e',
        compare-Agree json first second text later (kept-HasRecord k r)
            (evaluate-same out o presets files e) accepted,
      )

  sha-some :
      (path : Text) (files : Files) {c : Text}
      → lookup path files ≡ some c
      → sha out path files ≡ ok (out.sha c)
  unfolding sha
  sha-some path files h = rw (h, sha) refl

  compare_written :
      (json : ReadsBack out) (found : Found) (text : Text) (later : Files)
      → HasRecord later found text
      → same_candidate found.candidate found.candidate ≡ true
      → compare out o found later ≡ ok tt
  unfolding compare compare_record
  compare_written json found text later r own =
      rw
        (
          read-some _ later r.ready,
          json.loads-dumps found.candidate (out.sha text),
          read-some _ later r.sums,
          text_eq_refl found.checksums,
          sha-some _ later r.notes,
          text_eq_refl (out.sha text),
          json.same found.candidate (out.sha text) own,
        )
        refl

  -- After a run with `--write`, a run without it accepts the candidate and changes nothing, as long as the three files are
  -- as they were left and the checks find what they found before.
  pub main_accepts_written :
      ReadsBack out
      → (presets presets' : List Preset) (files written later : Files)
      → main out o true presets files ≡ ok written
      → IsKept written later
      → evaluate out o presets' later ≡ evaluate out o presets files
      → main out o false presets' later ≡ ok later
  unfolding main settle
  main_accepts_written json presets presets' files written later h k same =
      let (on, h₁) = >>-eq-ok o.debug _ _ h in
      let (found, e, w) = >>=-eq-ok (evaluate out o presets files) _ h₁ in
      let (text, r) = write-HasRecord found files w in
      guarded o.debug _ _ on
      ∙ rw
          (
            same ∙ e,
            compare_written json found text later (kept-HasRecord k r)
                (evaluate-same out o presets files e),
          )
          refl
