-- ===== src/Rootfs/Cache.antt =====
-- The use that scripts/ensure-rootfs.py makes of a cached root filesystem.
pub mod Verified
use linux_build.Base.{
  Bool, true, false, not, ◌&&◌, ◌||◌, List, [], ◌∷◌, ◌++◌, Option, none, some, Text, codes, newline,
  Result, ok, err, runtime_error, os_error, ◌>>=◌, ◌>>◌, require,
}
use linux_build.Base.Bytes.{Bytes}
use linux_build.Toml.{Value, truthy, is_text}
use linux_build.Release.Matrix.{subscript, get_or_none}
use linux_build.Firmware.Equal.{value_eq}

-- The folder of the cache for one key: its parsed `manifest.json`, with its bytes, and two files.
pub record Cache : Type 0 where
  pub manifest : Option (Value × Bytes)
  pub initramfs : Option Bytes
  pub busybox_config : Option Bytes

-- What a run that uses the cache writes: the root filesystem, the stamp, and the manifest.
pub record Written : Type 0 where
  pub output : Bytes
  pub legacy_stamp : Text
  pub manifest : Bytes

-- How the run goes on. `superseded` says that the folder has been set aside.
pub data Outcome : Type 0 where
  used : Written → Outcome
  build_anew : Bool → Outcome

-- `not prior.get(...) or not prior.get(...)`
unfoldable pub is_unverified : Value → Result Bool
is_unverified prior = do
  features ← get_or_none prior (codes "busybox_required_features")
  hash ← get_or_none prior (codes "busybox_config_sha256")
  ok (not (truthy features) || not (truthy hash))

-- The second test is made only if the first one holds.
unfoldable pub and_then : Bool → Result Bool → Result Bool
and_then false second = ok false
and_then true second = second

module _ (digest md5 : Bytes → Text) where
  -- `digest(path)`
  unfoldable pub digest_of : Text → Option Bytes → Result Text
  digest_of path none = err (os_error path)
  digest_of path (some content) = ok (digest content)

  -- `digest(cache / path) == record[key]`
  unfoldable pub hash_matches : Text → Text → Option Bytes → Value → Result Bool
  hash_matches path key content record_value = do
    hash ← digest_of path content
    recorded ← subscript record_value key
    ok (is_text recorded hash)

  -- The hashes, the second only if the first is right.
  unfoldable pub hashes_match : Cache → Value → Result Bool
  hashes_match cache record_value = do
    rootfs ←
        hash_matches (codes "initramfs.cpio.gz") (codes "rootfs_sha256") cache.initramfs
          record_value
    elim rootfs [
      | false ↦ ok false
      | true ↦
          hash_matches (codes "busybox.config") (codes "busybox_config_sha256") cache.busybox_config
            record_value
    ]

  -- The comparison of the record with what is there.
  unfoldable pub is_intact : Value → Cache → Value → Result Bool
  is_intact identity cache record_value = do
    recorded ← subscript record_value (codes "identity")
    and_then (value_eq recorded identity) (hashes_match cache record_value)

  unfoldable pub copy_of : Bytes → Option Bytes → Bytes → Result Outcome
  copy_of config none manifest = err (os_error (codes "initramfs.cpio.gz"))
  copy_of config (some initramfs) manifest = ok (
      used (record {
        output = initramfs;
        legacy_stamp = md5 config ++ (newline ∷ []);
        manifest = manifest;
      }))

  unfoldable pub verify : Value → Bytes → Cache → Value → Bytes → Result Outcome
  verify identity config cache record_value manifest = do
    intact ← is_intact identity cache record_value
    require intact (runtime_error (codes "rootfs cache integrity failure"))
    copy_of config cache.initramfs manifest

  unfoldable pub use_cache : Value → Bytes → Cache → Result Outcome
  use_cache identity config cache = elim cache.manifest [
    | none ↦ ok (build_anew false)
    | some (record_value, manifest) ↦ do
      unverified ← is_unverified record_value
      elim unverified [
        | true ↦ ok (build_anew true)
        | false ↦ verify identity config cache record_value manifest
      ]
  ]
