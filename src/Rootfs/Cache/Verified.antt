-- ===== src/Rootfs/Cache/Verified.antt =====
-- A cached root filesystem is used only as it was recorded.
use linux_build.Base.{
  err≢ok, false≢true, ok-inj, some-inj, Bool, true, false, ◌++◌, ◌∷◌, [], ◌≡◌, ◌≢◌, refl, sym, ap,
  ◌∙◌, Option, none, some, Text, codes, newline, Result, ok, >>=-eq-ok, >>-eq-ok, Result-cases,
  Option-cases, inl, inr,
}
use linux_build.Base.Bytes.{Bytes}
use linux_build.Toml.{Value, is_text}
use linux_build.Release.Matrix.{subscript}
use linux_build.Firmware.Equal.{value_eq}
use linux_build.Rootfs.Cache.{
  Cache, Written, used, build_anew, is_unverified, digest_of, and_then, hash_matches, hashes_match,
  is_intact, copy_of, verify, use_cache,
}

used-inj : {a b : Written} → used a ≡ used b → a ≡ b
used-inj h = cc

anew≢used : {b : Bool} {w : Written} → build_anew b ≢ used w
anew≢used h = cc

and_then-eq-true :
    (b : Bool) (second : Result Bool)
    → and_then b second ≡ ok true
    → (b ≡ true) × (second ≡ ok true)
unfolding and_then
and_then-eq-true false second h = cc
and_then-eq-true true second h = (refl, h)

module _ (digest md5 : Bytes → Text) where
  -- The identity is the one asked for, the hash of the root filesystem is the recorded one, and the
  -- files written are the cached ones with the stamp of the configuration.
  pub record IsVerified (identity : Value) (config : Bytes) (cache : Cache) (w : Written)
      : Type 0 where
    pub recorded : Value
    pub manifest : cache.manifest ≡ some (recorded, w.manifest)
    pub verified : is_unverified recorded ≡ ok false
    pub cached : cache.initramfs ≡ some w.output
    pub stamp : w.legacy_stamp ≡ md5 config ++ (newline ∷ [])
    pub own : Value
    pub has_own : subscript recorded (codes "identity") ≡ ok own
    pub same : value_eq own identity ≡ true
    pub hash : Value
    pub has_hash : subscript recorded (codes "rootfs_sha256") ≡ ok hash
    pub intact : is_text hash (digest w.output) ≡ true

  -- A file, and the recorded hash that is its own.
  record IsHashed (key : Text) (content : Option Bytes) (r : Value) : Type 0 where
    bytes : Bytes
    found : content ≡ some bytes
    hash : Value
    has_hash : subscript r key ≡ ok hash
    is_hash : is_text hash (digest bytes) ≡ true

  hash_matches-IsHashed :
      (path key : Text) (content : Option Bytes) (r : Value)
      → hash_matches digest md5 path key content r ≡ ok true
      → IsHashed key content r
  unfolding hash_matches digest_of
  hash_matches-IsHashed path key none r h = cc
  hash_matches-IsHashed path key (some bytes) r h =
      let (hash, has_hash, is) = >>=-eq-ok (subscript r key) _ h in
      record { bytes = bytes; found = refl; hash = hash; has_hash = has_hash; is_hash = ok-inj is }

  hashes_match-IsHashed :
      (cache : Cache) (r : Value)
      → hashes_match digest md5 cache r ≡ ok true
      → IsHashed (codes "rootfs_sha256") cache.initramfs r
        × IsHashed (codes "busybox_config_sha256") cache.busybox_config r
  unfolding hashes_match
  hashes_match-IsHashed cache r h =
      let (b, first, rest) =
        >>=-eq-ok
          (hash_matches digest md5 (codes "initramfs.cpio.gz") (codes "rootfs_sha256")
            cache.initramfs r)
          (both cache r) h in
      both-IsHashed cache r b first rest
    where
      both : Cache → Value → Bool → Result Bool
      both cache r b = elim b [
        | false ↦ ok false
        | true ↦
            hash_matches digest md5 (codes "busybox.config") (codes "busybox_config_sha256")
              cache.busybox_config r
      ]

      both-IsHashed :
          (cache : Cache) (r : Value) (b : Bool)
          → hash_matches digest md5
              (codes "initramfs.cpio.gz")
              (codes "rootfs_sha256")
              cache.initramfs
              r
            ≡ ok b
          → both cache r b ≡ ok true
          → IsHashed (codes "rootfs_sha256") cache.initramfs r
            × IsHashed (codes "busybox_config_sha256") cache.busybox_config r
      both-IsHashed cache r true first rest =
          (hash_matches-IsHashed _ _ _ r first, hash_matches-IsHashed _ _ _ r rest)
      both-IsHashed cache r false first rest = absurd (false≢true (ok-inj rest))

  is_intact-eq-true :
      (identity : Value) (cache : Cache) (r : Value)
      → is_intact digest md5 identity cache r ≡ ok true
      → (own : Value) × (subscript r (codes "identity") ≡ ok own)
        × (value_eq own identity ≡ true)
        × (hashes_match digest md5 cache r ≡ ok true)
  unfolding is_intact
  is_intact-eq-true identity cache r h =
      let (own, has_own, rest) = >>=-eq-ok (subscript r (codes "identity")) _ h in
      let (same, hashes) = and_then-eq-true _ _ rest in (own, has_own, same, hashes)

  copy_of-used :
      (config m : Bytes) (initramfs : Option Bytes) {w : Written}
      → copy_of digest md5 config initramfs m ≡ ok (used w)
      → (initramfs ≡ some w.output)
        × (w.legacy_stamp ≡ md5 config ++ (newline ∷ []))
        × (m ≡ w.manifest)
  unfolding copy_of
  copy_of-used config m none h = cc
  copy_of-used config m (some bytes) h =
      let is = used-inj (ok-inj h) in
      (ap some (ap (λ x. x.output) is), sym (ap (λ x. x.legacy_stamp) is), ap (λ x. x.manifest) is)

  verify-IsVerified :
      (identity : Value) (config : Bytes) (cache : Cache) (r : Value) (m : Bytes) {w : Written}
      → cache.manifest ≡ some (r, m)
      → is_unverified r ≡ ok false
      → verify digest md5 identity config cache r m ≡ ok (used w)
      → IsVerified identity config cache w
  unfolding verify
  verify-IsVerified identity config cache r m {w = w} e u h =
      let (intact, i, h₁) = >>=-eq-ok (is_intact digest md5 identity cache r) _ h in
      let (true_of, copied) = >>-eq-ok intact _ _ h₁ in
      let (own, has_own, same, hashes) = is_intact-eq-true identity cache r (i ∙ ap ok true_of) in
      let (rootfs, busybox) = hashes_match-IsHashed cache r hashes in
      let (cached, stamp, manifest) = copy_of-used config m cache.initramfs copied in
      let bytes_are : rootfs.bytes ≡ w.output = some-inj (sym rootfs.found ∙ cached) in
      record {
        recorded = r;
        manifest = e ∙ ap (λ x. some (r, x)) manifest;
        verified = u;
        cached = cached;
        stamp = stamp;
        own = own;
        has_own = has_own;
        same = same;
        hash = rootfs.hash;
        has_hash = rootfs.has_hash;
        intact = ap (λ x. is_text rootfs.hash (digest x)) (sym bytes_are) ∙ rootfs.is_hash;
      }

  -- A cached root filesystem is used only if its record has the BusyBox features and hash, the identity
  -- that is asked for, and the hash of the file that is copied; the stamp written with it is that of the
  -- configuration, and the manifest is that of the cache.
  pub use_cache-IsVerified :
      (identity : Value) (config : Bytes) (cache : Cache) {w : Written}
      → use_cache digest md5 identity config cache ≡ ok (used w)
      → IsVerified identity config cache w
  unfolding use_cache
  use_cache-IsVerified identity config cache h = elim (Option-cases cache.manifest) [
    | inl e ↦ absurd (anew≢used (ok-inj (rw (e, use_cache) at h)))
    | inr ((r, m), e) ↦ elim (Result-cases (is_unverified r)) [
      | inr (x, u) ↦ absurd (err≢ok (rw (e, u, use_cache) at h))
      | inl (true, u) ↦ absurd (anew≢used (ok-inj (rw (e, u, use_cache) at h)))
      | inl (false, u) ↦ verify-IsVerified identity config cache r m e u (rw (e, u, use_cache) at h)
    ]
  ]
