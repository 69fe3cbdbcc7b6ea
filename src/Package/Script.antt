-- ===== src/Package/Script.antt =====
-- `main` of scripts/package-artifacts.py, from its checks to the published package.
use linux_build.Base.{ℕ, [], ◌∷◌, ◌++◌, Text, codes, Result, ok, ◌>>=◌}
use linux_build.Base.Dict.{Dict}
use linux_build.Base.Bytes.{Bytes}
use linux_build.Package.Readme.{Manifest, readme}
use linux_build.Package.Checks.{Inputs, Checked, check}
use linux_build.Package.Publish.{Build, Folder, hashes, manifest_of, staged, publish}

-- SHA-256, UTF-8, the writers of JSON and of archives; JSON is written with its keys sorted.
pub record Writers : Type 0 where
  pub sha : Bytes → Text
  pub encode : Text → Bytes
  pub dumps : Manifest → Dict Text → Text
  pub tar : Text → Dict Bytes → Bytes

module _ (w : Writers) where
  abbrev pub manifest_json : Manifest → Dict Bytes → Bytes
  manifest_json m files = w.encode (w.dumps m (hashes w.sha files))

  -- The files of the package, with its manifest.
  unfoldable pub package_files : Inputs → Build → Checked → Dict Bytes
  package_files i b c =
      let m = manifest_of w.sha i c b in
      let files = staged i b b.kernel_config (w.encode (readme m)) in
      files ++ ((codes "manifest.json", manifest_json m files) ∷ [])

  unfoldable pub main : Inputs → Build → ℕ → Folder → Result Folder
  main i b time_ns folder = do
    c ← check w.sha i
    let files = package_files i b c
    ok (publish i.name time_ns files (w.tar i.name files) folder)
