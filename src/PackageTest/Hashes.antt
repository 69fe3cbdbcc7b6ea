-- ===== src/PackageTest/Hashes.antt =====
-- The comparison of hashes in `extract_and_audit` of scripts/test-packages.py, and the origin of the kernel.
pub mod Own
use linux_build.Base.{
  Bool, true, false, ◌&&◌, ◌||◌, List, [], ◌∷◌, ◌++◌, leb, ◌==◌, ℕ, length, Text, codes, text_eq,
  Result, ok, err, value_error, require, ◌>>=◌, ◌>>◌,
}
use linux_build.Base.Dict.{Dict, erase}
use linux_build.Base.Bytes.{Bytes}
use linux_build.Package.Publish.{hashes}
use linux_build.Release.Order.{split_from}
use linux_build.Gate.Records.{same_dict}

-- `source`, of `kernel-source.json`
pub record KernelSource : Type 0 where
  pub version : Text
  pub archive_url : Text
  pub sha256 : Text

-- The files that were extracted, but the manifest, have the hashes of the manifest.
unfoldable pub check_hashes : (Bytes → Text) → Dict Bytes → Dict Text → Result (Unit {0})
check_hashes sha files recorded =
    require (same_dict (erase (codes "manifest.json") (hashes sha files)) recorded)
      (value_error (codes "archive file hashes differ from manifest"))

-- `version.split(".")[0]`
unfoldable pub major : List Text → Text
major [] = []
major (part ∷ parts) = part

unfoldable pub expected_url : Text → Text
expected_url version =
    codes "https://cdn.kernel.org/pub/linux/kernel/v"
    ++ (major (split_from b'.' [] version) ++ (codes ".x/linux-" ++ (version ++ codes ".tar.xz")))

abbrev is_hex : ℕ → Bool
is_hex c = (leb b'0' c && leb c b'9') || (leb b'a' c && leb c b'f')

unfoldable pub all_hex : Text → Bool
all_hex [] = true
all_hex (c ∷ s) = is_hex c && all_hex s

unfoldable pub check_source : Text → KernelSource → Result (Unit {0})
check_source version source =
    require
      (text_eq source.version version
        && text_eq source.archive_url (expected_url version)
        && length source.sha256 == 64
        && all_hex source.sha256)
      (value_error (codes "kernel source provenance differs from package"))
