-- ===== src/Rootfs/Record.antt =====
-- What scripts/ensure-rootfs.py is asked for, as its `identity`, and what it puts into its cache after a
-- build. The build itself, git and the hashes are given.
pub mod Reused
use linux_build.Base.{
  ℕ, Bool, true, false, not, ◌&&◌, List, [], ◌∷◌, ◌++◌, Option, none, some, pos, ℤ, Text, codes,
  text_in, starts_with, splitlines, decimal, Result, ok, err, runtime_error, ◌>>=◌, ◌>>◌, require,
}
use linux_build.Base.Dict.{Dict}
use linux_build.Base.Bytes.{Bytes}
use linux_build.Toml.{Value, Items, Fields, nil, cons, end, field, int, str, arr, table}
use linux_build.Rootfs.Cache.{Cache}

-- What the identity is made of; `baseline` has the hashes of the files under `rootfs`.
pub record RootfsRequest : Type 0 where
  pub bits : ℤ
  pub config : Bytes
  pub source_commit : Text
  pub source_diff : Bytes
  pub defconfig : Bytes
  pub baseline : Dict Text

unfoldable pub text_fields : Dict Text → Fields
text_fields [] = end
text_fields ((k, v) ∷ d) = field k (str v) (text_fields d)

unfoldable pub text_items : List Text → Items
text_items [] = nil
text_items (s ∷ ss) = cons (str s) (text_items ss)

-- `required`
unfoldable pub features_of : List Text → List Text
features_of [] = []
features_of (line ∷ lines) =
    let rest = features_of lines in
    elim (starts_with line (codes "CONFIG_")) [ true ↦ line ∷ rest | false ↦ rest ]

-- `not missing`
unfoldable pub all_there : List Text → List Text → Bool
all_there [] actual = true
all_there (line ∷ lines) actual = text_in line actual && all_there lines actual

-- What a build leaves: the image, the configurations of the BusyBox builds, and the times as Python prints them.
pub record Built : Type 0 where
  pub output : Bytes
  pub config : Bytes
  pub busybox_configs : List Bytes
  pub target : Text
  pub started : Value
  pub finished : Value

-- The only BusyBox.
unfoldable pub single_busybox : List Bytes → Result Bytes
single_busybox (config ∷ []) = ok config
single_busybox _ = err (runtime_error (codes "expected one configured BusyBox build"))

module _ (digest : Bytes → Text) (decode : Bytes → Text) where
  unfoldable pub identity_of : RootfsRequest → Value
  identity_of r = table (
      field (codes "schema") (int (pos 2)) (
        field (codes "bits") (int r.bits) (
          field (codes "fragment_sha256") (str (digest r.config)) (
            field (codes "source_commit") (str r.source_commit) (
              field (codes "source_diff_sha256") (str (digest r.source_diff)) (
                field (codes "defconfig_sha256") (str (digest r.defconfig))
                  (field (codes "runtime_baseline") (table (text_fields r.baseline)) end)))))))

  -- `record`
  unfoldable pub record_of_build : Value → Built → Bytes → List Text → Value
  record_of_build identity b busybox required = table (
      field (codes "identity") identity (
        field (codes "rootfs_sha256") (str (digest b.output)) (
          field (codes "actual_config_sha256") (str (digest b.config)) (
            field (codes "busybox_config_sha256") (str (digest busybox)) (
              field (codes "busybox_required_features") (arr (text_items required)) (
                field (codes "started") b.started (
                  field (codes "finished") b.finished
                    (field (codes "build_target") (str b.target) end))))))))

  -- The folder of the cache that is filled; JSON is given.
  unfoldable pub fill :
      (Value → Bytes) → (Bytes → Value) → Value → Built → Bytes → List Text → Cache
  fill dumps loads identity b busybox required =
      let written = dumps (record_of_build identity b busybox required) in
      record {
        manifest = some (loads written, written);
        initramfs = some b.output;
        busybox_config = some busybox;
      }

  -- After the build, from the fragment with the settings that are required of BusyBox.
  unfoldable pub keep_build :
      (Value → Bytes) → (Bytes → Value) → Value → Text → Built → Result Cache
  keep_build dumps loads identity fragment b = do
    busybox ← single_busybox b.busybox_configs
    let required = features_of (splitlines fragment)
    require (all_there required (splitlines (decode busybox)))
        (runtime_error (codes "BusyBox did not apply required features"))
    ok (fill dumps loads identity b busybox required)
