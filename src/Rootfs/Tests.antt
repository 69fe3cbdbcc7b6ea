-- ===== src/Rootfs/Tests.antt =====
-- A preset that enables one more package.
use linux_build.Base.{
  pos, ap, sym, ◌∙◌, All, ◌≢◌, strip, ◌≡◌, refl, true, [], ◌∷◌, ◌⊎◌, some, none, Text, codes, ok,
  newline, ◌++◌, splitlines, lines_from, is_break, text_eq, text_in, starts_with, has_char,
}
use linux_build.Base.Dict.{lookup, insert}
use linux_build.Base.Bytes.{Bytes}
use linux_build.Base.Utf8.{decode}
use linux_build.Package.Settings.{read_lines, read_line, split_at}
use linux_build.Toml.{null, Value, Fields, str, table, field, end, get, truthy, is_text}
use linux_build.Release.Matrix.{subscript, get_or_none}
use linux_build.Firmware.Equal.{value_eq, count_fields}
use linux_build.Rootfs.Cache.{
  Cache, Written, used, is_unverified, digest_of, and_then, hash_matches, hashes_match, is_intact,
  copy_of, verify, use_cache,
}
use linux_build.Rootfs.Cache.Verified.{IsVerified, use_cache-IsVerified}
use linux_build.Rootfs.Record.{
  RootfsRequest, Built, text_fields, features_of, all_there, single_busybox, identity_of,
  record_of_build, fill, keep_build,
}
use linux_build.Rootfs.Record.Reused.{HasHashes, ReadsBack, keep_build-use_cache}
use linux_build.Rootfs.Reuse.{
  Tree, values, has_value, has_key, all_items, is_growth, compare_with, compare_old, same_config,
}
use linux_build.Rootfs.Reuse.Growth.{HasGrown, same_config-HasGrown}

abbrev old_config : Bytes
old_config = codes "BR2_PACKAGE_BUSYBOX=y"

abbrev new_config : Bytes
new_config = codes "BR2_PACKAGE_BUSYBOX=y" ++ (newline ∷ codes "BR2_PACKAGE_HTOP=y")

abbrev tree : Tree
tree = record {
  source_stamp = some old_config;
  output = none;
  built_image = none;
  legacy_stamp = none;
  requested = old_config ∷ [];
}

abbrev same : Bytes → Text
same content = content

tree-same_config : same_config same same new_config tree ≡ ok true
unfolding same_config strip compare_old compare_with values decode read_lines read_line split_at
    splitlines lines_from is_break has_char starts_with insert is_growth all_items has_value has_key
    text_in lookup text_eq
tree-same_config = refl

stripped : strip old_config ≡ old_config
unfolding strip
stripped = refl

same_config-HasGrown_example :
    (strip old_config ≡ same new_config)
    ⊎ HasGrown same same new_config (strip old_config) tree.requested
same_config-HasGrown_example = same_config-HasGrown same same new_config tree refl tree-same_config

abbrev entry : Text → Value → Fields
entry k v = field k v end

abbrev cache_record : Value
cache_record = table (
    field (codes "busybox_required_features") (str (codes "CONFIG_NC")) (
      field (codes "busybox_config_sha256") (str (codes "b")) (
        field (codes "rootfs_sha256") (str (codes "r"))
          (entry (codes "identity") (str (codes "i"))))))

abbrev cache : Cache
cache = record {
  manifest = some (cache_record, codes "{}");
  initramfs = some (codes "r");
  busybox_config = some (codes "b");
}

abbrev written : Written
written = record {
  output = codes "r";
  legacy_stamp = new_config ++ (newline ∷ []);
  manifest = codes "{}";
}

cache-used : use_cache same same (str (codes "i")) new_config cache ≡ ok (used written)
unfolding use_cache is_unverified get_or_none get text_eq truthy verify is_intact subscript value_eq
    hashes_match hash_matches digest_of and_then is_text copy_of
cache-used = refl

use_cache-IsVerified_example : IsVerified same same (str (codes "i")) new_config cache written
use_cache-IsVerified_example =
    use_cache-IsVerified same same (str (codes "i")) new_config cache cache-used

abbrev request : RootfsRequest
request = record {
  bits = pos 32;
  config = new_config;
  source_commit = codes "c";
  source_diff = [];
  defconfig = codes "d";
  baseline = (codes "rootfs/busybox.fragment", codes "f") ∷ [];
}

abbrev hashed : Bytes → Text
hashed content = b'h' ∷ content

hashed-HasHashes : HasHashes hashed
hashed-HasHashes = record { not_empty = λ b e. cc }

abbrev requested : Value
requested = identity_of hashed same request

abbrev build : Built
build = record {
  output = codes "image";
  config = codes "BR2=y";
  busybox_configs = codes "CONFIG_NC=y" ∷ [];
  target = codes "make_initramfs_buildroot";
  started = null;
  finished = null;
}

abbrev build_record : Value
build_record =
    record_of_build hashed same requested build (codes "CONFIG_NC=y") (codes "CONFIG_NC=y" ∷ [])

abbrev dumped : Value → Bytes
dumped v = codes "{}"

abbrev loaded : Bytes → Value
loaded s = build_record

abbrev kept : Cache
kept =
    fill hashed same dumped loaded requested build (codes "CONFIG_NC=y") (codes "CONFIG_NC=y" ∷ [])

features : features_of (splitlines (codes "CONFIG_NC=y")) ≡ codes "CONFIG_NC=y" ∷ []
unfolding splitlines lines_from is_break features_of starts_with
features = refl

requested-value_eq : value_eq requested requested ≡ true
unfolding value_eq identity_of text_fields get text_eq count_fields
requested-value_eq = refl

kept-build : keep_build hashed same dumped loaded requested (codes "CONFIG_NC=y") build ≡ ok kept
unfolding keep_build single_busybox features_of splitlines lines_from is_break starts_with all_there
    text_in text_eq
kept-build = refl

reads-back :
    ReadsBack hashed same same dumped loaded requested build
      (features_of (splitlines (codes "CONFIG_NC=y")))
reads-back = λ busybox e.
    let is : codes "CONFIG_NC=y" ≡ busybox = cc in
    ap (λ x. record_of_build hashed same requested build x (codes "CONFIG_NC=y" ∷ [])) is
    ∙ ap (record_of_build hashed same requested build busybox) (sym features)

some_features : features_of (splitlines (codes "CONFIG_NC=y")) ≢ []
some_features = λ e. let is : codes "CONFIG_NC=y" ∷ [] ≡ [] = sym features ∙ e in cc

keep_build-use_cache_example :
    (busybox : Bytes) × (kept.busybox_config ≡ some busybox)
    × All
        (λ l. text_in l (splitlines busybox) ≡ true)
        (features_of (splitlines (codes "CONFIG_NC=y")))
    × (w : Written) × (use_cache hashed same requested new_config kept ≡ ok (used w))
    × (w.output ≡ build.output)
    × (w.legacy_stamp ≡ new_config ++ (newline ∷ []))
    × (w.manifest
        ≡ dumped (
            record_of_build hashed same requested build busybox
              (features_of (splitlines (codes "CONFIG_NC=y")))))
    × (kept.manifest ≡ some (loaded w.manifest, w.manifest))
keep_build-use_cache_example =
    keep_build-use_cache hashed same same dumped loaded hashed-HasHashes requested
      (codes "CONFIG_NC=y") build new_config reads-back requested-value_eq some_features kept-build
