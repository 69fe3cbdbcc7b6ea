-- ===== src/Rootfs/Reuse/Growth.antt =====
-- A Buildroot tree is built on only if its configuration has merely grown.
use linux_build.Base.{
  IsIn, strip, false≢true, ok-inj, Bool, true, false, ◌||◌, List, [], ◌∷◌, ◌≡◌, refl, ap, ◌∙◌, ◌⊎◌,
  inl, inr, arith, none, some, Text, codes, text_eq, text_eq_iff, text_in, starts_with, ok, &&_iff,
  Bool-cases, Option-cases, >>=-eq-ok,
}
use linux_build.Base.Dict.{Dict, lookup}
use linux_build.Base.Bytes.{Bytes}
use linux_build.Rootfs.Reuse.{
  values, integration, has_value, has_key, is_kept, may_come, all_items, is_growth, Tree,
  compare_with, compare_old, same_config,
}

all_items-lookup :
    (test : Text → Text → Bool) (d : Dict Text) {k v : Text}
    → all_items test d ≡ true
    → lookup k d ≡ some v
    → test k v ≡ true
unfolding all_items lookup
all_items-lookup test [] h l = cc
all_items-lookup test ((j, w) ∷ d) {k = k} {v = v} h l = elim (Bool-cases (text_eq k j)) [
  | inl e ↦
      let is : k ≡ j = (text_eq_iff k j).0 e in
      let found : some w ≡ some v = rw (e, lookup) at l in
      cc (((&&_iff (test j w) (all_items test d)).0 h).0, is, found)
  | inr e ↦ all_items-lookup test d ((&&_iff _ _).0 h).1 (rw (e, lookup) at l)
]

-- Every setting is as it was, but for those of the integration; and a new one enables a package.
pub record IsGrowth (before after : Dict Text) : Type 0 where
  pub kept :
      (k v : Text)
      → text_in k integration ≡ false
      → lookup k before ≡ some v
      → lookup k after ≡ some v
  pub added :
      (k v : Text)
      → text_in k integration ≡ false
      → lookup k before ≡ none
      → lookup k after ≡ some v
      → (starts_with k (codes "BR2_PACKAGE_") ≡ true) × (v ≡ codes "y")

or_right : (a b : Bool) → a ≡ false → (a || b) ≡ true → b ≡ true
or_right a b e h = ground arith

has_value-lookup : (k v : Text) (d : Dict Text) → has_value k v d ≡ true → lookup k d ≡ some v
unfolding has_value
has_value-lookup k v d h = elim (Option-cases (lookup k d)) [
  | inl e ↦ absurd (false≢true (rw (e, has_value) at h))
  | inr (w, e) ↦ e ∙ ap some ((text_eq_iff w v).0 (rw (e, has_value) at h))
]

has_key-none : (k : Text) (d : Dict Text) → lookup k d ≡ none → has_key k d ≡ false
unfolding has_key
has_key-none k d e = rw (e, has_key) refl

is_growth-IsGrowth :
    (before after : Dict Text) → is_growth before after ≡ true → IsGrowth before after
unfolding is_growth
is_growth-IsGrowth before after h =
    let (kept, added) = (&&_iff _ _).0 h in
    record {
      kept = λ k v own l. has_value-lookup k v after (
          or_right (text_in k integration) (has_value k v after) own
            (all_items-lookup (is_kept after) before kept l));
      added = λ k v own l m.
          let may = all_items-lookup (may_come before) after added m in
          let (name, value) =
            (&&_iff (starts_with k (codes "BR2_PACKAGE_")) (text_eq v (codes "y"))).0 (
              or_right (text_in k integration) _ own
                (or_right (has_key k before) _ (has_key-none k before l) may)) in
          (name, (text_eq_iff v (codes "y")).0 value);
    }

module _ (md5 digest : Bytes → Text) where
  -- A configuration in the cache that the stamp names, and out of which the new one has grown.
  pub record HasGrown (config : Bytes) (previous : Text) (requested : List Bytes) : Type 0 where
    pub old : Bytes
    pub cached : IsIn old requested
    pub named : md5 old ≡ previous
    pub before : Dict Text
    pub read_before : values old ≡ ok before
    pub after : Dict Text
    pub read_after : values config ≡ ok after
    pub growth : IsGrowth before after

  later :
      {config : Bytes} {previous : Text} {requested : List Bytes} (first : Bytes)
      → HasGrown config previous requested
      → HasGrown config previous (first ∷ requested)
  later first g = record {
    old = g.old;
    cached = inr g.cached;
    named = g.named;
    before = g.before;
    read_before = g.read_before;
    after = g.after;
    read_after = g.read_after;
    growth = g.growth;
  }

  compare_old-HasGrown :
      (config : Bytes) (previous : Text) (requested : List Bytes)
      → compare_old md5 digest config previous requested ≡ ok true
      → HasGrown config previous requested
  unfolding compare_old compare_with
  compare_old-HasGrown config previous [] h = absurd (false≢true (ok-inj h))
  compare_old-HasGrown config previous (old ∷ requested) h =
      elim (Bool-cases (text_eq (md5 old) previous)) [
        | inr e ↦
            later old (compare_old-HasGrown config previous requested (rw (e, compare_old) at h))
        | inl e ↦
            let (before, rb, h₁) = >>=-eq-ok (values old) _ (rw (e, compare_old) at h) in
            let (after, ra, h₂) = >>=-eq-ok (values config) _ h₁ in
            record {
              old = old;
              cached = inl refl;
              named = (text_eq_iff (md5 old) previous).0 e;
              before = before;
              read_before = rb;
              after = after;
              read_after = ra;
              growth = is_growth-IsGrowth before after (ok-inj h₂);
            }
      ]

  -- A stamped tree is built on without cleaning only if the stamp is that of the configuration, or
  -- names a configuration requested in the cache, of which every setting is unchanged and to which only enabled packages have
  -- been added, up to the overlay and the BusyBox fragment.
  pub same_config-HasGrown :
      (config : Bytes) (tree : Tree) {stamp : Text}
      → tree.source_stamp ≡ some stamp
      → same_config md5 digest config tree ≡ ok true
      → (strip stamp ≡ md5 config) ⊎ HasGrown config (strip stamp) tree.requested
  unfolding same_config
  same_config-HasGrown config tree {stamp = stamp} s h =
      elim (Bool-cases (text_eq (strip stamp) (md5 config))) [
        | inl e ↦ inl ((text_eq_iff (strip stamp) (md5 config)).0 e)
        | inr e ↦
            inr (
              compare_old-HasGrown config (strip stamp) tree.requested
                (rw (s, e, same_config) at h))
      ]
