-- ===== src/Config/Lookup/Places.antt =====
-- A preset with another value at one place, as `deep_get` of scripts/gen-config.py sees it.
use linux_build.Base.{
  true, false, List, [], ◌∷◌, Option, none, some, ◌≡◌, ◌≢◌, refl, sym, ap, ◌∙◌, ◌⊎◌, inl, inr, Text,
  text_eq, text_eq_iff, text_eq_refl, if◌then◌else◌, Bool-cases, Option-cases, some-inj, arith,
}
use linux_build.Toml.{Value, Fields, end, field, get, null, bool, int, str, other, arr, table}
use linux_build.Config.Lookup.{deep_get, walk}

-- The value of a key, in its place, or behind the others if the key is new.
unfoldable pub put_field : Text → Value → Fields → Fields
put_field k v end = field k v end
put_field k v (field j w fs) = if text_eq k j then field j v fs else field j w (put_field k v fs)

abbrev at : Option Value → Value
at none = table end
at (some v) = v

-- The value at the end of a path, where all else stays as it is.
unfoldable pub set_in : List Text → Value → Value → Value
set_in [] v d = v
set_in (k ∷ ks) v (table fs) = table (put_field k (set_in ks v (at (get k fs))) fs)
set_in (k ∷ ks) v _ = table (field k (set_in ks v (table end)) end)

get-put_field :
    (j k : Text) (v : Value) (fs : Fields)
    → get j (put_field k v fs) ≡ (if text_eq j k then some v else get j fs)
unfolding get put_field
get-put_field j k v end = refl
get-put_field j k v (field i w fs) =
    ground (arith, text_eq_iff j k, text_eq_iff k i, text_eq_iff j i, get-put_field j k v fs)

get-put_own : (k : Text) (v : Value) (fs : Fields) → get k (put_field k v fs) ≡ some v
get-put_own k v fs = get-put_field k k v fs ∙ rw (text_eq_refl k) refl

get-put_other :
    (j k : Text) (v : Value) (fs : Fields)
    → text_eq j k ≡ false
    → get j (put_field k v fs) ≡ get j fs
get-put_other j k v fs h = get-put_field j k v fs ∙ rw h refl

put_field-own : (k : Text) (v : Value) (fs : Fields) → get k fs ≡ some v → put_field k v fs ≡ fs
unfolding get put_field
put_field-own k v end h = cc
put_field-own k v (field j w fs) h = elim (Bool-cases (text_eq k j)) [
  | inl e ↦ rw e (ap (λ x. field j x fs) (sym (some-inj (rw e at h))))
  | inr e ↦ rw e (ap (field j w) (put_field-own k v fs (rw e at h)))
]

none≢some : {v : Value} → none ≢ some v
none≢some h = cc

pub set_in-own :
    (keys : List Text) (d : Value) {v : Value} → walk d keys ≡ some v → set_in keys v d ≡ d
unfolding set_in walk
set_in-own [] d h = sym (some-inj h)
set_in-own (k ∷ ks) (table fs) {v} h = elim (Option-cases (get k fs)) [
  | inl e ↦ absurd (none≢some (rw (e, walk) at h))
  | inr (w, e) ↦ rw e (
      ap (λ x. table (put_field k x fs)) (set_in-own ks w (rw (e, walk) at h))
      ∙ ap table (put_field-own k w fs e))
]
set_in-own (k ∷ ks) null h = cc
set_in-own (k ∷ ks) (bool b) h = cc
set_in-own (k ∷ ks) (int b) h = cc
set_in-own (k ∷ ks) (str b) h = cc
set_in-own (k ∷ ks) (other b c) h = cc
set_in-own (k ∷ ks) (arr b) h = cc

-- A step into what was put under the key.
deep_get-own :
    (k : Text) (keys : List Text) (v : Value) (fs : Fields) (default : Value)
    → deep_get (table (put_field k v fs)) (k ∷ keys) default ≡ deep_get v keys default
unfolding deep_get
deep_get-own k keys v fs default = rw (get-put_own k v fs) refl

deep_get-first :
    (k : Text) (keys : List Text) (v : Value) (default : Value)
    → deep_get (table (field k v end)) (k ∷ keys) default ≡ deep_get v keys default
unfolding deep_get get
deep_get-first k keys v default = rw (text_eq_refl k) refl

pub deep_get-set_in :
    (keys : List Text) (v d default : Value) → deep_get (set_in keys v d) keys default ≡ v
unfolding set_in
deep_get-set_in [] v d default = unfold deep_get in refl
deep_get-set_in (k ∷ ks) v (table fs) default =
    deep_get-own k ks _ fs default ∙ deep_get-set_in ks v (at (get k fs)) default
deep_get-set_in (k ∷ ks) v null default =
    deep_get-first k ks _ default ∙ deep_get-set_in ks v (table end) default
deep_get-set_in (k ∷ ks) v (bool b) default =
    deep_get-first k ks _ default ∙ deep_get-set_in ks v (table end) default
deep_get-set_in (k ∷ ks) v (int b) default =
    deep_get-first k ks _ default ∙ deep_get-set_in ks v (table end) default
deep_get-set_in (k ∷ ks) v (str b) default =
    deep_get-first k ks _ default ∙ deep_get-set_in ks v (table end) default
deep_get-set_in (k ∷ ks) v (other b c) default =
    deep_get-first k ks _ default ∙ deep_get-set_in ks v (table end) default
deep_get-set_in (k ∷ ks) v (arr b) default =
    deep_get-first k ks _ default ∙ deep_get-set_in ks v (table end) default

-- The two paths part before either ends.
abbrev pub IsApart : List Text → List Text → Type 0
IsApart (k ∷ ks) (j ∷ js) = (text_eq j k ≡ false) ⊎ ((text_eq j k ≡ true) × IsApart ks js)
IsApart _ _ = ⊥

-- In a table, a path that parts from the one that is set.
step_apart :
    (k j : Text) (js : List Text) (x y : Value) (fs : Fields) (default : Value)
    → (text_eq j k ≡ false)
      ⊎ ((text_eq j k ≡ true) × (deep_get x js default ≡ deep_get y js default))
    → deep_get (table (put_field k x fs)) (j ∷ js) default
      ≡ deep_get (table (put_field k y fs)) (j ∷ js) default
unfolding deep_get
step_apart k j js x y fs default (inl e) =
    rw (get-put_other j k x fs e, get-put_other j k y fs e) refl
step_apart k j js x y fs default (inr (e, same)) =
    rw (get-put_field j k x fs, get-put_field j k y fs, e) same

-- The step below one key: the paths part here, or below it.
below :
    (k j : Text) (ks js : List Text) (v w d default : Value)
    → (IsApart ks js → deep_get (set_in ks v d) js default ≡ deep_get (set_in ks w d) js default)
    → IsApart (k ∷ ks) (j ∷ js)
    → (text_eq j k ≡ false)
      ⊎ ((text_eq j k ≡ true)
          × (deep_get (set_in ks v d) js default ≡ deep_get (set_in ks w d) js default))
below k j ks js v w d default f (inl e) = inl e
below k j ks js v w d default f (inr (e, apart)) = inr (e, f apart)

-- What stands at one path does not matter to a path that parts from it.
pub deep_get-apart :
    (keys js : List Text) (v w d default : Value)
    → IsApart keys js
    → deep_get (set_in keys v d) js default ≡ deep_get (set_in keys w d) js default
unfolding set_in put_field
deep_get-apart [] js v w d default h = absurd h
deep_get-apart (k ∷ ks) [] v w d default h = absurd h
deep_get-apart (k ∷ ks) (j ∷ js) v w (table fs) default h =
    step_apart k j js _ _ fs default
      (below k j ks js v w _ default (deep_get-apart ks js v w (at (get k fs)) default) h)
deep_get-apart (k ∷ ks) (j ∷ js) v w null default h =
    step_apart k j js _ _ end default
      (below k j ks js v w _ default (deep_get-apart ks js v w (table end) default) h)
deep_get-apart (k ∷ ks) (j ∷ js) v w (bool b) default h =
    step_apart k j js _ _ end default
      (below k j ks js v w _ default (deep_get-apart ks js v w (table end) default) h)
deep_get-apart (k ∷ ks) (j ∷ js) v w (int b) default h =
    step_apart k j js _ _ end default
      (below k j ks js v w _ default (deep_get-apart ks js v w (table end) default) h)
deep_get-apart (k ∷ ks) (j ∷ js) v w (str b) default h =
    step_apart k j js _ _ end default
      (below k j ks js v w _ default (deep_get-apart ks js v w (table end) default) h)
deep_get-apart (k ∷ ks) (j ∷ js) v w (other b c) default h =
    step_apart k j js _ _ end default
      (below k j ks js v w _ default (deep_get-apart ks js v w (table end) default) h)
deep_get-apart (k ∷ ks) (j ∷ js) v w (arr b) default h =
    step_apart k j js _ _ end default
      (below k j ks js v w _ default (deep_get-apart ks js v w (table end) default) h)
