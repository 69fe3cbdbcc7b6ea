-- ===== src/Gate/Packages/Tested.antt =====
-- The packages that scripts/check-release.py accepts.
use linux_build.Base.{
  true, ◌&&◌, [], ◌∷◌, ◌++◌, some, ℤ, pos, Text, codes, text_eq, text_eq_iff, &&_iff, ok, >>=-eq-ok,
  >>-eq-ok, Option-cases, inl, inr, ◌≡◌, sym, ◌∙◌, refl, false≢true, ok-inj, err≢ok, All, arith, ap,
}
use linux_build.Base.Dict.{Dict, lookup}
use linux_build.Toml.{Value, is_text}
use linux_build.Package.Readme.{Manifest}
use linux_build.Release.Status.{under}
use linux_build.Release.Build.Reuse.{IsUnchanged}
use linux_build.Gate.Records.{
  TestRow, TestResults, Expected, Files, Outside, Options, read, sha, holds,
}
use linux_build.Gate.Boots.{stem_of, check_boots}
use linux_build.Gate.Boots.Passed.{IsPassed, read-eq-ok, check_boots-IsPassed}
use linux_build.Gate.Packages.{
  at_key, memory_tested, eq_ℤ, configured_version, describes, preset_path, boots_all, check_inputs,
  check_manifest, check_package, check_packages,
}

pub sha-eq-ok :
    (out : Outside) (path : Text) (files : Files) {h : Text}
    → sha out path files ≡ ok h
    → (c : Text) × (lookup path files ≡ some c) × (out.sha c ≡ h)
unfolding sha
sha-eq-ok out path files h = elim (Option-cases (lookup path files)) [
  | inl e ↦ absurd (err≢ok (rw (e, sha) at h))
  | inr (content, e) ↦ (content, e, ok-inj (rw (e, sha) at h))
]

at_key-eq-ok :
    {A : Type 0} (k : Text) (d : Dict A) {v : A} → at_key k d ≡ ok v → lookup k d ≡ some v
unfolding at_key
at_key-eq-ok k d h = elim (Option-cases (lookup k d)) [
  | inl e ↦ absurd (err≢ok (rw (e, at_key) at h))
  | inr (v, e) ↦ e ∙ ap some (ok-inj (rw (e, at_key) at h))
]

memory_tested-eq-ok : (row : TestRow) {n : ℤ} → memory_tested row ≡ ok n → row.memory_mib ≡ some n
unfolding memory_tested
memory_tested-eq-ok row h = elim (Option-cases row.memory_mib) [
  | inl e ↦ absurd (err≢ok (rw (e, memory_tested) at h))
  | inr (v, e) ↦ e ∙ ap some (ok-inj (rw (e, memory_tested) at h))
]

eq_ℤ-eq : (a b : ℤ) → eq_ℤ a b ≡ true → a ≡ b
eq_ℤ-eq a b h = ground arith

pub holds-lookup : (k v : Text) (d : Dict Text) → holds k v d ≡ true → lookup k d ≡ some v
unfolding holds
holds-lookup k v d h = elim (Option-cases (lookup k d)) [
  | inl e ↦ absurd (false≢true (rw (e, holds) at h))
  | inr (w, e) ↦ e ∙ ap some (sym ((text_eq_iff v w).0 (rw (e, holds) at h)))
]

-- The manifest is the one of the preset, for 100 Hz and 1 GiB.
pub record IsDescribed (m : Manifest) (e : Expected) (row : TestRow) : Type 0 where
  pub preset : m.preset ≡ e.preset.stem
  pub bits : m.bits ≡ e.bits
  pub variant : m.variant ≡ e.variant
  pub version : Value
  pub configured : configured_version e.preset ≡ ok version
  pub is_version : is_text version m.kernel_version ≡ true
  pub hz : m.kernel_hz ≡ pos 100
  pub memory : m.memory_mib ≡ pos 1024
  pub tested_memory : row.memory_mib ≡ some (pos 1024)

module _ (out : Outside) (o : Options) where
  -- The archive is the one that passed its tests, its manifest describes the preset as it is now, every
  -- build input is as it was, and each mode was booted once and passed.
  pub record IsTested (files : Files) (tests : TestResults) (results : Dict TestRow)
      (name digest : Text) (e : Expected) : Type 0 where
    pub archive : Text
    pub found : lookup (o.dist ++ (b'/' ∷ name)) files ≡ some archive
    pub is_digest : out.sha archive ≡ digest
    pub row : TestRow
    pub has_row : lookup name results ≡ some row
    pub passed : row.pass ≡ true
    pub tested : row.archive_sha256 ≡ digest
    pub manifest : Manifest
    pub packed : out.manifest_in archive (stem_of name ++ codes "/manifest.json") ≡ ok manifest
    pub described : IsDescribed manifest e row
    pub preset : Text
    pub has_preset : lookup (under o.root (preset_path e)) files ≡ some preset
    pub recorded : lookup (preset_path e) manifest.build_inputs ≡ some (out.sha preset)
    pub unchanged : All (IsUnchanged out.sha o.root files) manifest.build_inputs
    pub modes : boots_all row.boots e.variant ≡ true
    pub boots : All (IsPassed out o files tests.log_dir name e.variant manifest) row.boots

  check_inputs-IsUnchanged :
      (files : Files) (name : Text) (inputs : Dict Text)
      → check_inputs out o files name inputs ≡ ok tt
      → All (IsUnchanged out.sha o.root files) inputs
  unfolding check_inputs
  check_inputs-IsUnchanged files name [] h = tt
  check_inputs-IsUnchanged files name ((path, hash) ∷ inputs) h =
      let (found, f, h₁) = >>=-eq-ok (sha out (under o.root path) files) _ h in
      let (same, h₂) = >>-eq-ok (text_eq found hash) _ _ h₁ in
      let (content, there, is) = sha-eq-ok out _ files f in
      (
        (content, there, is ∙ (text_eq_iff found hash).0 same),
        check_inputs-IsUnchanged files name inputs h₂,
      )

  describes-eq-true :
      (m : Manifest) (e : Expected) (row : TestRow) {version : Value} {memory : ℤ}
      → configured_version e.preset ≡ ok version
      → describes m e version ≡ true
      → memory_tested row ≡ ok memory
      → (eq_ℤ m.memory_mib memory && eq_ℤ memory (pos 1024)) ≡ true
      → IsDescribed m e row
  unfolding describes
  describes-eq-true m e row {version = version} {memory = memory} c d r q =
      let (d₁, hz) = (&&_iff _ _).0 d in
      let (d₂, is_version) = (&&_iff _ _).0 d₁ in
      let (d₃, variant) = (&&_iff _ _).0 d₂ in
      let (preset, bits) = (&&_iff _ _).0 d₃ in
      let (same, full) = (&&_iff _ _).0 q in
      record {
        preset = (text_eq_iff _ _).0 preset;
        bits = eq_ℤ-eq _ _ bits;
        variant = (text_eq_iff _ _).0 variant;
        version = version;
        configured = c;
        is_version = is_version;
        hz = eq_ℤ-eq _ _ hz;
        memory = eq_ℤ-eq _ _ same ∙ eq_ℤ-eq _ _ full;
        tested_memory = memory_tested-eq-ok row r ∙ ap some (eq_ℤ-eq _ _ full);
      }

  -- What the comparisons of the manifest show.
  record IsCurrent (files : Files) (e : Expected) (row : TestRow) (m : Manifest) : Type 0 where
    described : IsDescribed m e row
    preset : Text
    has_preset : lookup (under o.root (preset_path e)) files ≡ some preset
    recorded : lookup (preset_path e) m.build_inputs ≡ some (out.sha preset)
    unchanged : All (IsUnchanged out.sha o.root files) m.build_inputs

  check_manifest-IsCurrent :
      (files : Files) (name : Text) (e : Expected) (row : TestRow) (m : Manifest)
      → check_manifest out o files name e row m ≡ ok tt
      → IsCurrent files e row m
  unfolding check_manifest
  check_manifest-IsCurrent files name e row m h =
      let (version, c, h₁) = >>=-eq-ok (configured_version e.preset) _ h in
      let (d, h₂) = >>-eq-ok (describes m e version) _ _ h₁ in
      let (memory, r, h₃) = >>=-eq-ok (memory_tested row) _ h₂ in
      let (q, h₄) = >>-eq-ok (eq_ℤ m.memory_mib memory && eq_ℤ memory (pos 1024)) _ _ h₃ in
      let (hash, p, h₅) = >>=-eq-ok (sha out (under o.root (preset_path e)) files) _ h₄ in
      let (kept, inputs) = >>-eq-ok (holds (preset_path e) hash m.build_inputs) _ _ h₅ in
      let (content, there, is) = sha-eq-ok out _ files p in
      record {
        described = describes-eq-true m e row c d r q;
        preset = content;
        has_preset = there;
        recorded = holds-lookup _ _ _ kept ∙ ap some (sym is);
        unchanged = check_inputs-IsUnchanged files name m.build_inputs inputs;
      }

  pub check_package-IsTested :
      (files : Files) (tests : TestResults) (results : Dict TestRow) (name : Text) (e : Expected)
      {digest : Text}
      → check_package out o files tests results name e ≡ ok digest
      → IsTested files tests results name digest e
  unfolding check_package
  check_package-IsTested files tests results name e h =
      let (archive, a, h₁) = >>=-eq-ok (read (o.dist ++ (b'/' ∷ name)) files) _ h in
      let (row, r, h₂) = >>=-eq-ok (at_key name results) _ h₁ in
      let (tested, h₃) =
        >>-eq-ok (row.pass && text_eq row.archive_sha256 (out.sha archive)) _ _ h₂ in
      let (m, packed, h₄) =
        >>=-eq-ok (out.manifest_in archive (stem_of name ++ codes "/manifest.json")) _ h₃ in
      let (u, current, h₅) = >>=-eq-ok (check_manifest out o files name e row m) _ h₄ in
      let (modes, h₆) = >>-eq-ok (boots_all row.boots e.variant) _ _ h₅ in
      let (u', boots, h₇) =
        >>=-eq-ok (check_boots out o files tests.log_dir name e.variant m row.boots) _ h₆ in
      let (passed, same) = (&&_iff _ _).0 tested in
      let c = check_manifest-IsCurrent files name e row m current in
      record {
        archive = archive;
        found = read-eq-ok _ files a;
        is_digest = ok-inj h₇;
        row = row;
        has_row = at_key-eq-ok name results r;
        passed = passed;
        tested = (text_eq_iff _ _).0 same ∙ ok-inj h₇;
        manifest = m;
        packed = packed;
        described = c.described;
        preset = c.preset;
        has_preset = c.has_preset;
        recorded = c.recorded;
        unchanged = c.unchanged;
        modes = modes;
        boots = check_boots-IsPassed out o files tests.log_dir name e.variant m row.boots boots;
      }

  -- The packages and their digests, in the same order.
  abbrev pub AllTested : Files → TestResults → Dict TestRow → Dict Expected → Dict Text → Type 0
  AllTested files tests results [] [] = Unit {0}
  AllTested files tests results ((name, e) ∷ expected) ((name', digest) ∷ archives) =
      (name ≡ name')
      × IsTested files tests results name digest e
      × AllTested files tests results expected archives
  AllTested files tests results _ _ = ⊥

  pub check_packages-AllTested :
      (files : Files) (tests : TestResults) (results : Dict TestRow) (expected : Dict Expected)
      (archives : Dict Text)
      → check_packages out o files tests results expected ≡ ok archives
      → AllTested files tests results expected archives
  unfolding check_packages
  check_packages-AllTested files tests results [] [] h = tt
  check_packages-AllTested files tests results [] (a ∷ archives) h = ground arith
  check_packages-AllTested files tests results ((name, e) ∷ expected) archives h =
      let (digest, d, h₁) = >>=-eq-ok (check_package out o files tests results name e) _ h in
      let (more, m, h₂) = >>=-eq-ok (check_packages out o files tests results expected) _ h₁ in
      rw (sym (ok-inj h₂)) (
        refl,
        check_package-IsTested files tests results name e d,
        check_packages-AllTested files tests results expected more m,
      )
