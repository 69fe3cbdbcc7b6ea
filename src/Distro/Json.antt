-- ===== src/Distro/Json.antt =====
-- A writer of the record of a disk, and readers of it that give back what was written.
use linux_build.Base.{
  List, [], ◌∷◌, ◌++◌, some, map, Text, codes, text_eq, Result, ok, ◌>>=◌, ◌≡◌, refl, ap, sym,
}
use mathlib.Core.List.{append-nil}
use linux_build.Base.Dict.{Dict, lookup}
use linux_build.Gate.Packages.{at_key}
use linux_build.Gate.Json.{put_dict, get_dict, get_dict-put_dict}
use linux_build.Distro.Build.{DiskRecord, Prior}
use linux_build.Distro.Audit.{DiskOrigin}
use linux_build.Distro.Chain.{origin_of}

unfoldable pub hashes_in : DiskRecord → Dict Text
hashes_in d =
    (codes "inputs_sha256", d.inputs_sha256)
    ∷ (codes "rootfs_sha256", d.rootfs_sha256)
    ∷ (codes "kernel_sha256", d.kernel_sha256)
    ∷ (codes "firmware_sha256", d.firmware_sha256)
    ∷ (codes "build_log_sha256", d.build_log_sha256)
    ∷ (codes "builder", d.builder)
    ∷ []

-- The packages as keys without values.
unfoldable pub as_keys : List Text → Dict Text
as_keys ps = map (λ p. (p, [])) ps

unfoldable pub keys_of : Dict Text → List Text
keys_of d = map (λ item. item.0) d

keys_of-as_keys : (ps : List Text) → keys_of (as_keys ps) ≡ ps
unfolding keys_of as_keys
keys_of-as_keys [] = refl
keys_of-as_keys (p ∷ ps) = ap (λ qs. p ∷ qs) (keys_of-as_keys ps)

unfoldable pub dumps_disk : DiskRecord → Text
dumps_disk d = put_dict (hashes_in d) ++ put_dict (as_keys d.packages)

unfoldable pub prior_in : Dict Text × Text → Prior
prior_in (hashes, rest) = record {
  inputs_sha256 = lookup (codes "inputs_sha256") hashes;
  rootfs_sha256 = lookup (codes "rootfs_sha256") hashes;
}

unfoldable pub load_prior : Text → Result Prior
load_prior s = ok (prior_in (get_dict s))

unfoldable pub origin_in : Dict Text × Text → Result DiskOrigin
origin_in (hashes, rest) = do
  rootfs ← at_key (codes "rootfs_sha256") hashes
  kernel ← at_key (codes "kernel_sha256") hashes
  firmware ← at_key (codes "firmware_sha256") hashes
  log ← at_key (codes "build_log_sha256") hashes
  builder ← at_key (codes "builder") hashes
  ok (record {
    rootfs_sha256 = rootfs;
    kernel_sha256 = kernel;
    firmware_sha256 = firmware;
    build_log_sha256 = log;
    builder = builder;
    packages = keys_of (get_dict rest).0;
  })

unfoldable pub load_origin : Text → Result DiskOrigin
load_origin s = origin_in (get_dict s)

pub load_prior-dumps_disk :
    (d : DiskRecord)
    → load_prior (dumps_disk d)
      ≡ ok (record { inputs_sha256 = some d.inputs_sha256; rootfs_sha256 = some d.rootfs_sha256 })
unfolding load_prior dumps_disk prior_in hashes_in lookup text_eq
load_prior-dumps_disk d = rw (get_dict-put_dict (hashes_in d) (put_dict (as_keys d.packages))) refl

packages-read : (ps : List Text) → keys_of (get_dict (put_dict (as_keys ps))).0 ≡ ps
packages-read ps =
    rw (sym (append-nil (put_dict (as_keys ps))), get_dict-put_dict (as_keys ps) [])
      (keys_of-as_keys ps)

pub load_origin-dumps_disk : (d : DiskRecord) → load_origin (dumps_disk d) ≡ ok (origin_of d)
unfolding load_origin dumps_disk origin_in hashes_in lookup text_eq at_key
load_origin-dumps_disk d =
    rw (get_dict-put_dict (hashes_in d) (put_dict (as_keys d.packages)), packages-read d.packages)
      refl
