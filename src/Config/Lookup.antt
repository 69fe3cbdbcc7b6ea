-- ===== src/Config/Lookup.antt =====
-- `deep_get` of scripts/gen-config.py, against a plain walk along the path.
pub mod Places
use linux_build.Base.{List, [], ◌∷◌, Option, none, some, ◌≡◌, refl, Text, Option-cases, inl, inr}
use linux_build.Toml.{Value, end, field, get, null, bool, int, str, other, arr, table}

abbrev or_default : Option Value → Value → Value
or_default none d = d
or_default (some v) d = v

unfoldable pub deep_get : Value → List Text → Value → Value
deep_get d [] default = d
deep_get (table fs) (k ∷ keys) default = deep_get (or_default (get k fs) default) keys default
deep_get _ (k ∷ keys) default = default

-- The value at the end of the path, if every key on the way is there.
unfoldable pub walk : Value → List Text → Option Value
walk d [] = some d
walk (table fs) (k ∷ keys) = elim (get k fs) [ none ↦ none | some v ↦ walk v keys ]
walk _ (k ∷ keys) = none

-- A default that `deep_get` cannot look into: every one that is no table, and the empty table.
abbrev pub IsPlain : Value → Type 0
IsPlain (table (field k v fs)) = ⊥
IsPlain _ = Unit

deep_get-default : (keys : List Text) (d : Value) → IsPlain d → deep_get d keys d ≡ d
unfolding deep_get get
deep_get-default [] d h = refl
deep_get-default (k ∷ keys) (table end) h = deep_get-default keys (table end) h
deep_get-default (k ∷ keys) (table (field j v fs)) h = absurd h
deep_get-default (k ∷ keys) null h = refl
deep_get-default (k ∷ keys) (bool b) h = refl
deep_get-default (k ∷ keys) (int b) h = refl
deep_get-default (k ∷ keys) (str b) h = refl
deep_get-default (k ∷ keys) (other b c) h = refl
deep_get-default (k ∷ keys) (arr b) h = refl

-- For a default that is no table, or the empty one, `deep_get` gives what stands at the end of the path, and the default
-- if any key is missing.
pub deep_get-walk :
    (keys : List Text) (d default : Value)
    → IsPlain default
    → deep_get d keys default ≡ or_default (walk d keys) default
unfolding deep_get walk
deep_get-walk [] d default h = refl
deep_get-walk (k ∷ keys) (table fs) default h = elim (Option-cases (get k fs)) [
  | inl missing ↦ rw (missing, walk) (deep_get-default keys default h)
  | inr (v, found) ↦ rw (found, walk) (deep_get-walk keys v default h)
]
deep_get-walk (k ∷ keys) null default h = refl
deep_get-walk (k ∷ keys) (bool b) default h = refl
deep_get-walk (k ∷ keys) (int b) default h = refl
deep_get-walk (k ∷ keys) (str b) default h = refl
deep_get-walk (k ∷ keys) (other b c) default h = refl
deep_get-walk (k ∷ keys) (arr b) default h = refl
