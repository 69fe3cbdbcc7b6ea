-- ===== src/Rootfs/Reuse.antt =====
-- The decision of scripts/ensure-rootfs.py whether a Buildroot tree can be built on, or is cleaned
-- first. MD5 and SHA-256 are given as functions.
pub mod Growth
use linux_build.Base.{
  strip, ℕ, Bool, true, false, not, ◌&&◌, ◌||◌, List, [], ◌∷◌, Option, none, some, leb, ◌==◌,
  if◌then◌else◌, Text, codes, text_eq, text_in, starts_with, splitlines, Result, ok, err, ◌>>=◌,
}
use linux_build.Base.Dict.{Dict, lookup}
use linux_build.Base.Bytes.{Bytes}
use linux_build.Base.Utf8.{decode}
use linux_build.Package.Settings.{read_lines}

-- `values`
unfoldable pub values : Bytes → Result (Dict Text)
values content = do text ← decode content; ok (read_lines (codes "BR2_") (splitlines text) [])

abbrev pub integration : List Text
integration = codes "BR2_ROOTFS_OVERLAY" ∷ codes "BR2_PACKAGE_BUSYBOX_CONFIG_FRAGMENT_FILES" ∷ []

-- `after.get(k) == v`
unfoldable pub has_value : Text → Text → Dict Text → Bool
has_value k v d = elim (lookup k d) [ none ↦ false | some w ↦ text_eq w v ]

unfoldable pub has_key : Text → Dict Text → Bool
has_key k d = elim (lookup k d) [ none ↦ false | some w ↦ true ]

-- Whether a setting of `before` is as it was.
abbrev pub is_kept : Dict Text → Text → Text → Bool
is_kept after k v = text_in k integration || has_value k v after

-- Whether a setting of `after` may be there.
abbrev pub may_come : Dict Text → Text → Text → Bool
may_come before k v =
    has_key k before
    || (text_in k integration || (starts_with k (codes "BR2_PACKAGE_") && text_eq v (codes "y")))

-- `all(test(k, v) for k, v in d.items())`
unfoldable pub all_items : (Text → Text → Bool) → Dict Text → Bool
all_items test [] = true
all_items test ((k, v) ∷ d) = test k v && all_items test d

unfoldable pub is_growth : Dict Text → Dict Text → Bool
is_growth before after = all_items (is_kept after) before && all_items (may_come before) after

-- The files that the decision looks at.
pub record Tree : Type 0 where
  pub source_stamp : Option Text
  pub output : Option Bytes
  pub built_image : Option Bytes
  pub legacy_stamp : Option Text
  -- The files `requested.config` of the cache, in the order of the glob.
  pub requested : List Bytes

module _ (md5 digest : Bytes → Text) where
  -- Without a stamp: the output must be what was built, under the legacy stamp.
  unfoldable pub same_legacy : Bytes → Tree → Bool
  same_legacy config tree = elim tree.output [
    | none ↦ false
    | some output ↦ elim tree.built_image [
      | none ↦ false
      | some built ↦ elim tree.legacy_stamp [
        | none ↦ false
        | some stamp ↦ text_eq (strip stamp) (md5 config) && text_eq (digest output) (digest built)
      ]
    ]
  ]

  -- The comparison with the old configuration.
  unfoldable pub compare_with : Bytes → Bytes → Result Bool
  compare_with old config = do
    before ← values old
    after ← values config
    ok (is_growth before after)

  -- The loop over the cache, up to the configuration that the stamp names.
  unfoldable pub compare_old : Bytes → Text → List Bytes → Result Bool
  compare_old config previous [] = ok false
  compare_old config previous (old ∷ requested) = elim (text_eq (md5 old) previous) [
    | false ↦ compare_old config previous requested
    | true ↦ compare_with old config
  ]

  -- `same_config`
  unfoldable pub same_config : Bytes → Tree → Result Bool
  same_config config tree = elim tree.source_stamp [
    | none ↦ ok (same_legacy config tree)
    | some stamp ↦ elim (text_eq (strip stamp) (md5 config)) [
      | true ↦ ok true
      | false ↦ compare_old config (strip stamp) tree.requested
    ]
  ]
