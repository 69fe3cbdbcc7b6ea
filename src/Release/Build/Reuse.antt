-- ===== src/Release/Build/Reuse.antt =====
-- When scripts/build-release.py reuses a package.
use linux_build.Base.{
  err≢ok, false≢true, ok-inj, true, [], ◌∷◌, ◌≡◌, Text, ok, All, some, Option-cases, Result-cases,
  Bool-cases, inl, inr, text_eq_iff, &&_iff,
}
use linux_build.Base.Dict.{Dict, lookup}
use linux_build.Release.Status.{Outside, Options, under, inputs_match, matches_record}
use linux_build.Release.Build.{reusable, archive_path, manifest_path}

-- The file that the record names is there, with the hash that the record has.
abbrev pub IsUnchanged : (Text → Text) → Text → Dict Text → Text × Text → Type 0
IsUnchanged sha root files (path, hash) =
    (content : Text) × (lookup (under root path) files ≡ some content) × (sha content ≡ hash)

inputs_match-IsUnchanged :
    (sha : Text → Text) (root : Text) (inputs files : Dict Text)
    → inputs_match sha root inputs files ≡ true
    → All (IsUnchanged sha root files) inputs
unfolding inputs_match
inputs_match-IsUnchanged sha root [] files h = tt
inputs_match-IsUnchanged sha root ((p, hash) ∷ inputs) files h =
    elim (Option-cases (lookup (under root p) files)) [
      | inl e ↦ absurd (false≢true (rw (e, inputs_match) at h))
      | inr (content, e) ↦
          let (same, rest) = (&&_iff _ _).0 (rw (e, inputs_match) at h) in
          (
            (content, e, (text_eq_iff (sha content) hash).0 same),
            inputs_match-IsUnchanged sha root inputs files rest,
          )
    ]

module _ (out : Outside) (o : Options) where
  -- What a reused package rests on.
  pub record IsReusable (name : Text) (files : Dict Text) : Type 0 where
    pub resume : o.resume ≡ true
    pub archive : (content : Text) × (lookup (archive_path out o name) files ≡ some content)
    pub manifest : Text
    pub found : lookup (manifest_path out o name) files ≡ some manifest
    pub inputs : Dict Text
    pub read : out.build_inputs manifest ≡ ok inputs
    pub unchanged : All (IsUnchanged out.sha o.root files) inputs

  -- `reusable` holds only under `--resume`, if the archive and the manifest are there, and if
  -- every build input that the manifest records is a file with the recorded hash.
  pub reusable-IsReusable :
      (name : Text) (files : Dict Text)
      → reusable out o name files ≡ ok true
      → IsReusable name files
  unfolding reusable matches_record
  reusable-IsReusable name files h = elim (Bool-cases o.resume) [
    | inr r ↦ absurd (false≢true (ok-inj (rw (r, reusable) at h)))
    | inl r ↦ elim (Option-cases (lookup (archive_path out o name) files)) [
      | inl a ↦ absurd (false≢true (ok-inj (rw (r, a, reusable) at h)))
      | inr (content, a) ↦ elim (Option-cases (lookup (manifest_path out o name) files)) [
        | inl m ↦ absurd (false≢true (ok-inj (rw (r, a, m, reusable) at h)))
        | inr (manifest, m) ↦ elim (Result-cases (out.build_inputs manifest)) [
          | inr (x, b) ↦ absurd (err≢ok (rw (r, a, m, b, reusable, matches_record) at h))
          | inl (inputs, b) ↦ record {
            resume = r;
            archive = (content, a);
            manifest = manifest;
            found = m;
            inputs = inputs;
            read = b;
            unchanged =
                inputs_match-IsUnchanged out.sha o.root inputs files
                  (ok-inj (rw (r, a, m, b, reusable, matches_record) at h));
          }
        ]
      ]
    ]
  ]
