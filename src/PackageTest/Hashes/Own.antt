-- ===== src/PackageTest/Hashes/Own.antt =====
-- The manifests of scripts/package-artifacts.py and scripts/package-distro.py, as scripts/test-packages.py compares them.
use linux_build.Base.{
  [], ◌∷◌, ◌++◌, none, some, Text, codes, text_eq, text_eq_refl, ok, ◌≡◌, refl, ap, inl, inr,
  Option-cases, Bool-cases, ◌≢◌,
}
use linux_build.Base.Dict.{Dict, lookup, erase, IsDict}
use linux_build.Base.Bytes.{Bytes}
use linux_build.Package.Readme.{readme}
use linux_build.Package.Checks as P
use linux_build.Package.Checks.{is_buildroot}
use linux_build.Package.Publish.{Build, hashes, manifest_of, staged}
use linux_build.Package.Script as S
use linux_build.Package.Script.{manifest_json, package_files}
use linux_build.Gate.Recorded.{same_dict_refl}
use linux_build.Distro.Script.{
  Inputs, Writers, CheckedDisk, staged_disk, distro_manifest_of, distro_files,
}
use linux_build.PackageTest.Hashes.{check_hashes}

some≢none : {s : Text} → some s ≢ none
some≢none h = cc

erase-last :
    (sha : Bytes → Text) (k : Text) (m : Bytes) (files : Dict Bytes)
    → lookup k (hashes sha files) ≡ none
    → erase k (hashes sha (files ++ ((k, m) ∷ []))) ≡ hashes sha files
unfolding erase hashes lookup
erase-last sha k m [] h = rw (text_eq_refl k) refl
erase-last sha k m ((j, c) ∷ files) h = elim (Bool-cases (text_eq k j)) [
  | inl e ↦ absurd (some≢none (rw e at h))
  | inr e ↦ rw e (ap (λ d. (j, sha c) ∷ d) (erase-last sha k m files (rw e at h)))
]

module _ (w : Writers) (i : Inputs) (c : CheckedDisk) where
  no_manifest : lookup (codes "manifest.json") (hashes w.sha (staged_disk w i c)) ≡ none
  unfolding staged_disk hashes lookup text_eq
  no_manifest = elim (Option-cases i.source_record) [ inl e ↦ rw e refl | inr (s, e) ↦ rw e refl ]

  staged_disk-IsDict : IsDict (hashes w.sha (staged_disk w i c))
  unfolding staged_disk hashes lookup text_eq
  staged_disk-IsDict = elim (Option-cases i.source_record) [
    | inl e ↦
        rw e (refl, (refl, (refl, (refl, (refl, (refl, (refl, (refl, (refl, (refl, tt))))))))))
    | inr (s, e) ↦
        rw e
          (refl, (refl, (refl, (refl, (refl, (refl, (refl, (refl, (refl, (refl, (refl, tt)))))))))))
  ]

  distro_files-check_hashes :
      check_hashes w.sha (distro_files w i c) (distro_manifest_of w i c).files ≡ ok tt
  unfolding check_hashes distro_files distro_manifest_of
  distro_files-check_hashes =
      rw
        (
          erase-last w.sha (codes "manifest.json") (w.encode (w.dumps (distro_manifest_of w i c)))
              (staged_disk w i c) no_manifest,
          same_dict_refl (hashes w.sha (staged_disk w i c)) staged_disk-IsDict,
        )
        refl

module _ (i : P.Inputs) (b : Build) (config readme_file : Bytes) (sha : Bytes → Text) where
  no_manifest_staged :
      lookup (codes "manifest.json") (hashes sha (staged i b config readme_file)) ≡ none
  unfolding staged hashes lookup text_eq
  no_manifest_staged = elim (Bool-cases (is_buildroot i)) [
    | inr f ↦ elim (Option-cases b.source_record) [
      | inl e ↦ rw (e, f) refl
      | inr (s, e) ↦ rw (e, f) refl
    ]
    | inl t ↦ elim (Option-cases b.source_record) [
      | inl e ↦ elim (Option-cases b.rootfs_manifest) [
        | inl d ↦ rw (e, t, d) refl
        | inr (r, d) ↦ rw (e, t, d) refl
      ]
      | inr (s, e) ↦ elim (Option-cases b.rootfs_manifest) [
        | inl d ↦ rw (e, t, d) refl
        | inr (r, d) ↦ rw (e, t, d) refl
      ]
    ]
  ]

  staged-IsDict : IsDict (hashes sha (staged i b config readme_file))
  unfolding staged hashes lookup text_eq
  staged-IsDict = elim (Bool-cases (is_buildroot i)) [
    | inr f ↦ elim (Option-cases b.source_record) [
      | inl e ↦ rw (e, f) (refl, (refl, (refl, (refl, (refl, (refl, (refl, (refl, (refl, tt)))))))))
      | inr (s, e) ↦
          rw (e, f)
            (refl, (refl, (refl, (refl, (refl, (refl, (refl, (refl, (refl, (refl, tt))))))))))
    ]
    | inl t ↦ elim (Option-cases b.source_record) [
      | inl e ↦ elim (Option-cases b.rootfs_manifest) [
        | inl d ↦
            rw (e, t, d) (refl, (refl, (refl, (refl, (refl, (refl, (refl, (refl, (refl, tt)))))))))
        | inr (r, d) ↦
            rw (e, t, d)
              (refl, (refl, (refl, (refl, (refl, (refl, (refl, (refl, (refl, (refl, tt))))))))))
      ]
      | inr (s, e) ↦ elim (Option-cases b.rootfs_manifest) [
        | inl d ↦
            rw (e, t, d)
              (refl, (refl, (refl, (refl, (refl, (refl, (refl, (refl, (refl, (refl, tt))))))))))
        | inr (r, d) ↦
            rw (e, t, d)
              (
                refl,
                (refl, (refl, (refl, (refl, (refl, (refl, (refl, (refl, (refl, (refl, tt)))))))))),
              )
      ]
    ]
  ]

lookup-last :
    (sha : Bytes → Text) (k : Text) (m : Bytes) (files : Dict Bytes)
    → lookup k (hashes sha files) ≡ none
    → lookup k (files ++ ((k, m) ∷ [])) ≡ some m
unfolding hashes lookup
lookup-last sha k m [] h = rw (text_eq_refl k) refl
lookup-last sha k m ((j, c) ∷ files) h = elim (Bool-cases (text_eq k j)) [
  | inl e ↦ absurd (some≢none (rw e at h))
  | inr e ↦ rw e (lookup-last sha k m files (rw e at h))
]

-- The files have a manifest with these contents and hashes, and pass the comparison with those hashes.
pub record HasManifest (sha : Bytes → Text) (files : Dict Bytes) (written : Dict Text → Bytes)
    : Type 0 where
  pub recorded : Dict Text
  pub manifest : lookup (codes "manifest.json") files ≡ some (written recorded)
  pub compared : check_hashes sha files recorded ≡ ok tt

pub package_files-HasManifest :
    (w : S.Writers) (i : P.Inputs) (b : Build) (c : P.Checked)
    → HasManifest w.sha
        (package_files w i b c)
        (λ recorded. w.encode (w.dumps (manifest_of w.sha i c b) recorded))
unfolding check_hashes package_files
package_files-HasManifest w i b c =
    let text = w.encode (readme (manifest_of w.sha i c b)) in
    let files = staged i b b.kernel_config text in
    let none_yet = no_manifest_staged i b b.kernel_config text w.sha in
    let written = manifest_json w (manifest_of w.sha i c b) files in
    record {
      recorded = hashes w.sha files;
      manifest = lookup-last w.sha (codes "manifest.json") written files none_yet;
      compared =
          rw
            (
              erase-last w.sha (codes "manifest.json") written files none_yet,
              same_dict_refl (hashes w.sha files) (staged-IsDict i b b.kernel_config text w.sha),
            )
            refl;
    }

distro_files-manifest :
    (w : Writers) (i : Inputs) (c : CheckedDisk)
    → lookup (codes "manifest.json") (distro_files w i c)
      ≡ some (w.encode (w.dumps (distro_manifest_of w i c)))
unfolding distro_files
distro_files-manifest w i c =
    lookup-last w.sha (codes "manifest.json") (w.encode (w.dumps (distro_manifest_of w i c)))
      (staged_disk w i c) (no_manifest w i c)

-- The packages of both scripts have a `manifest.json`, which is what JSON makes of the manifest with some recorded
-- hashes; and their other files, read back, pass the comparison with those hashes.
pub own-check_hashes :
    (w : S.Writers) (i : P.Inputs) (b : Build) (c : P.Checked) (v : Writers) (j : Inputs)
    (d : CheckedDisk)
    → HasManifest w.sha
        (package_files w i b c)
        (λ recorded. w.encode (w.dumps (manifest_of w.sha i c b) recorded))
      × ((lookup (codes "manifest.json") (distro_files v j d)
            ≡ some (v.encode (v.dumps (distro_manifest_of v j d))))
          × (check_hashes v.sha (distro_files v j d) (distro_manifest_of v j d).files ≡ ok tt))
own-check_hashes w i b c v j d = (
  package_files-HasManifest w i b c,
  (distro_files-manifest v j d, distro_files-check_hashes v j d),
)
