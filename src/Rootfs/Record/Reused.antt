-- ===== src/Rootfs/Record/Reused.antt =====
-- What a build of scripts/ensure-rootfs.py has cached is what the next run uses.
use linux_build.Base.{
  true, false, List, [], ◌∷◌, ◌++◌, Option, some, Text, newline, splitlines, text_eq, text_eq_refl,
  text_in, ok, >>=-eq-ok, >>-eq-ok, ok-inj, ◌≡◌, ◌≢◌, refl, sym, ap, ◌∙◌, &&_iff, All,
}
use linux_build.Base.Bytes.{Bytes}
use linux_build.Toml.{Value, str, arr, get, truthy, is_text}
use linux_build.Release.Matrix.{subscript, get_or_none}
use linux_build.Firmware.Equal.{value_eq}
use linux_build.Rootfs.Cache.{
  Cache, Written, used, is_unverified, digest_of, and_then, hash_matches, hashes_match, is_intact,
  copy_of, verify, use_cache,
}
use linux_build.Rootfs.Record.{
  Built, text_items, features_of, all_there, single_busybox, record_of_build, fill, keep_build,
}

-- A hash is not the empty text.
pub record HasHashes (digest : Bytes → Text) : Type 0 where
  pub not_empty : (b : Bytes) → digest b ≢ []

all_there-All :
    (ls actual : List Text) → all_there ls actual ≡ true → All (λ l. text_in l actual ≡ true) ls
unfolding all_there
all_there-All [] actual h = tt
all_there-All (l ∷ ls) actual h =
    let (now, rest) = (&&_iff (text_in l actual) (all_there ls actual)).0 h in
    (now, all_there-All ls actual rest)

truthy-str : (s : Text) → s ≢ [] → truthy (str s) ≡ true
unfolding truthy
truthy-str [] h = absurd (h refl)
truthy-str (c ∷ s) h = refl

truthy-features : (ls : List Text) → ls ≢ [] → truthy (arr (text_items ls)) ≡ true
unfolding truthy text_items
truthy-features [] h = absurd (h refl)
truthy-features (l ∷ ls) h = refl

single_busybox-eq-ok :
    (configs : List Bytes) {busybox : Bytes}
    → single_busybox configs ≡ ok busybox
    → configs ≡ busybox ∷ []
unfolding single_busybox
single_busybox-eq-ok [] h = cc
single_busybox-eq-ok (c ∷ []) h = ap (λ x. x ∷ []) (ok-inj h)
single_busybox-eq-ok (c ∷ d ∷ cs) h = cc

module _ (digest md5 decode : Bytes → Text) (dumps : Value → Bytes) (loads : Bytes → Value) where
  -- JSON gives back the record of this build.
  abbrev pub ReadsBack : Value → Built → List Text → Type 0
  ReadsBack identity b required =
      (busybox : Bytes)
      → b.busybox_configs ≡ busybox ∷ []
      → loads (dumps (record_of_build digest decode identity b busybox required))
        ≡ record_of_build digest decode identity b busybox required

  record-verified :
      HasHashes digest
      → (identity : Value) (b : Built) (busybox : Bytes) (required : List Text) → required ≢ []
      → is_unverified (record_of_build digest decode identity b busybox required) ≡ ok false
  unfolding is_unverified record_of_build get_or_none get text_eq
  record-verified r identity b busybox required some_required =
      rw (truthy-features required some_required, truthy-str (digest busybox) (r.not_empty busybox))
        refl

  record-intact :
      (identity : Value) (b : Built) (busybox : Bytes) (required : List Text)
      (manifest : Option (Value × Bytes))
      → value_eq identity identity ≡ true
      → is_intact digest md5 identity
          (record { manifest = manifest; initramfs = some b.output; busybox_config = some busybox })
          (record_of_build digest decode identity b busybox required)
        ≡ ok true
  unfolding record_of_build get text_eq is_intact subscript hashes_match hash_matches digest_of
      and_then is_text
  record-intact identity b busybox required manifest own =
      rw (own, text_eq_refl (digest b.output), text_eq_refl (digest busybox)) refl

  fill-used :
      HasHashes digest
      → (identity : Value) (b : Built) (busybox : Bytes) (required : List Text) (config : Bytes)
      → loads (dumps (record_of_build digest decode identity b busybox required))
        ≡ record_of_build digest decode identity b busybox required
      → value_eq identity identity ≡ true
      → required ≢ []
      → use_cache digest md5 identity config
          (fill digest decode dumps loads identity b busybox required)
        ≡ ok (
            used (record {
              output = b.output;
              legacy_stamp = md5 config ++ (newline ∷ []);
              manifest = dumps (record_of_build digest decode identity b busybox required);
            }))
  unfolding use_cache fill verify copy_of
  fill-used r identity b busybox required config reads own some_required =
      rw
        (
          reads,
          record-verified r identity b busybox required some_required,
          verify,
          reads,
          record-intact identity b busybox required
              (some (
                record_of_build digest decode identity b busybox required,
                dumps (record_of_build digest decode identity b busybox required),
              ))
              own,
        )
        refl

  -- Once a build is kept in the cache, BusyBox has every feature that the fragment requires, and the next run with
  -- the same identity uses the cache: it writes the root filesystem of that build, with its record and the
  -- stamp of the configuration; where the fragment requires some feature, for otherwise each run builds anew.
  pub keep_build-use_cache :
      HasHashes digest
      → (identity : Value) (fragment : Text) (b : Built) {cache : Cache} (config : Bytes)
      → ReadsBack identity b (features_of (splitlines fragment))
      → value_eq identity identity ≡ true
      → features_of (splitlines fragment) ≢ []
      → keep_build digest decode dumps loads identity fragment b ≡ ok cache
      → (busybox : Bytes) × (cache.busybox_config ≡ some busybox)
        × All
            (λ l. text_in l (splitlines (decode busybox)) ≡ true)
            (features_of (splitlines fragment))
        × (w : Written) × (use_cache digest md5 identity config cache ≡ ok (used w))
        × (w.output ≡ b.output)
        × (w.legacy_stamp ≡ md5 config ++ (newline ∷ []))
        × (w.manifest
            ≡ dumps (
                record_of_build digest decode identity b busybox
                  (features_of (splitlines fragment))))
        × (cache.manifest ≡ some (loads w.manifest, w.manifest))
  unfolding keep_build fill
  keep_build-use_cache r identity fragment b {cache} config reads own some_required h =
      let required = features_of (splitlines fragment) in
      let (busybox, e₁, h₁) = >>=-eq-ok (single_busybox b.busybox_configs) _ h in
      let (there, h₂) = >>-eq-ok (all_there required (splitlines (decode busybox))) _ _ h₁ in
      let is : fill digest decode dumps loads identity b busybox required ≡ cache = ok-inj h₂ in
      (
        busybox,
        ap (λ c. c.busybox_config) (sym is),
        all_there-All required (splitlines (decode busybox)) there,
        _,
        ap (use_cache digest md5 identity config) (sym is)
            ∙ fill-used r identity b busybox required config
                (reads busybox (single_busybox-eq-ok b.busybox_configs e₁)) own some_required,
        refl,
        refl,
        refl,
        ap (λ c. c.manifest) (sym is),
      )
