-- ===== src/Config/Kernel/ReadBack.antt =====
-- The lines of a fragment of scripts/gen-config.py, as `config_values` reads them.
use linux_build.Base.{
  ℕ, true, false, List, [], ◌∷◌, ◌++◌, ◌≡◌, refl, ◌∙◌, ap, sym, arith, Text, codes, has_char,
  starts_with, splitlines, Bool-cases, inl, inr, All, All-append, HasNoBreak, splitlines-unlines,
  join-unlines, is_break, ok,
}
use mathlib.Core.Path.{subst}
use mathlib.Core.List.{append-nil}
use linux_build.Base.Dict.{Dict, insert}
use linux_build.Toml.{Value, Fields, end, field, bool, int, table, items, int_text, to_text, truthy}
use linux_build.Package.Settings.{
  read_line, read_lines, config_values, read_line-assignment, read_lines-append,
}
use linux_build.Config.Kernel.{
  finish_lines, full_key, kconfig_line, kconfig_lines, entries_of, user_lines,
}

abbrev pub prefix : Text
prefix = codes "CONFIG_"

-- What a value is read back as; a `false` is not set at all.
abbrev pub setting_text : Value → Text
setting_text (bool true) = codes "y"
setting_text (int n) = int_text n
setting_text v = b'"' ∷ (to_text v ++ codes "\"")

abbrev pub apply_entry : Text → Value → Dict Text → Dict Text
apply_entry key (bool false) d = d
apply_entry key v d = insert (full_key key) (setting_text v) d

-- The settings that the entries ask for, later ones over earlier ones.
abbrev pub settings : Dict Value → Dict Text → Dict Text
settings [] d = d
settings ((k, v) ∷ entries) d = settings entries (apply_entry k v d)

-- The key holds no `=`, and neither it nor the value holds a line break.
abbrev pub IsSingleLine : Text × Value → Type 0
IsSingleLine (k, v) = (has_char b'=' k ≡ false) × HasNoBreak k × HasNoBreak (to_text v)

full_key-prefix : (k : Text) → starts_with (full_key k) prefix ≡ true
unfolding full_key
full_key-prefix k = elim (Bool-cases (starts_with k prefix)) [
  | inl h ↦ rw h h
  | inr h ↦ rw h (unfold starts_with in refl)
]

full_key-has_char : (k : Text) → has_char b'=' k ≡ false → has_char b'=' (full_key k) ≡ false
unfolding full_key
full_key-has_char k h = elim (Bool-cases (starts_with k prefix)) [
  | inl e ↦ rw e h
  | inr e ↦ rw e (unfold has_char in h)
]

abbrev pub NoBreak : ℕ → Type 0
NoBreak c = is_break c ≡ false

prefix-HasNoBreak : HasNoBreak prefix
unfolding is_break
prefix-HasNoBreak = ground arith

full_key-HasNoBreak : (k : Text) → HasNoBreak k → HasNoBreak (full_key k)
unfolding full_key
full_key-HasNoBreak k h = elim (Bool-cases (starts_with k prefix)) [
  | inl e ↦ rw e h
  | inr e ↦ rw e (All-append NoBreak prefix k prefix-HasNoBreak h)
]

read_line-kconfig_line :
    (k : Text) (v : Value) (d : Dict Text)
    → has_char b'=' k ≡ false
    → read_line prefix (kconfig_line k v) d ≡ apply_entry k v d
read_line-kconfig_line k (bool false) d h = unfold kconfig_line read_line starts_with in refl
read_line-kconfig_line k (bool true) d h =
    unfold kconfig_line in
    read_line-assignment prefix (full_key k) _ d (full_key-prefix k) (full_key-has_char k h)
read_line-kconfig_line k v d h =
    unfold kconfig_line in
    read_line-assignment prefix (full_key k) _ d (full_key-prefix k) (full_key-has_char k h)

-- A line with the full key between two other texts.
around-HasNoBreak :
    (k before after : Text)
    → HasNoBreak before
    → HasNoBreak k
    → HasNoBreak after
    → HasNoBreak (before ++ (full_key k ++ after))
around-HasNoBreak k before after hb hk ha =
    All-append NoBreak before _ hb
      (All-append NoBreak (full_key k) after (full_key-HasNoBreak k hk) ha)

literals-HasNoBreak :
    HasNoBreak (codes "=y") × HasNoBreak (codes "# ") × HasNoBreak (codes " is not set")
unfolding is_break
literals-HasNoBreak = ground arith

quoted-HasNoBreak : (t : Text) → HasNoBreak t → HasNoBreak (codes "=\"" ++ (t ++ codes "\""))
quoted-HasNoBreak t h = (
  unfold is_break in refl,
  (unfold is_break in refl, All-append NoBreak t _ h (unfold is_break in refl, tt)),
)

kconfig_line-HasNoBreak :
    (k : Text) (v : Value) → IsSingleLine (k, v) → HasNoBreak (kconfig_line k v)
unfolding kconfig_line
kconfig_line-HasNoBreak k (bool false) h =
    around-HasNoBreak k (codes "# ") (codes " is not set") literals-HasNoBreak.1 h.1
      literals-HasNoBreak.2
kconfig_line-HasNoBreak k (bool true) h =
    around-HasNoBreak k [] (codes "=y") tt h.1 literals-HasNoBreak.0
kconfig_line-HasNoBreak k (int n) h =
    around-HasNoBreak k [] (b'=' ∷ int_text n) tt h.1
      (unfold is_break in refl, unfold to_text in h.2)
kconfig_line-HasNoBreak k v h =
    around-HasNoBreak k [] (codes "=\"" ++ (to_text v ++ codes "\"")) tt h.1
      (quoted-HasNoBreak (to_text v) h.2)

-- Reading the lines of a loop applies its entries, on top of what was read before.
pub read_lines-kconfig_lines :
    (entries : Dict Value) (d : Dict Text)
    → All IsSingleLine entries
    → read_lines prefix (kconfig_lines entries) d ≡ settings entries d
unfolding read_lines kconfig_lines
read_lines-kconfig_lines [] d h = refl
read_lines-kconfig_lines ((k, v) ∷ entries) d h =
    read_lines-kconfig_lines entries _ h.1
    ∙ ap (settings entries) (read_line-kconfig_line k v d h.0.0)

pub kconfig_lines-HasNoBreak :
    (entries : Dict Value) → All IsSingleLine entries → All HasNoBreak (kconfig_lines entries)
unfolding kconfig_lines
kconfig_lines-HasNoBreak [] h = tt
kconfig_lines-HasNoBreak ((k, v) ∷ entries) h =
    (kconfig_line-HasNoBreak k v h.0, kconfig_lines-HasNoBreak entries h.1)

-- A text of lines is read line by line.
pub config_values-finish_lines :
    (l : Text) (ls : List Text)
    → All HasNoBreak (l ∷ ls)
    → config_values (finish_lines (l ∷ ls)) ≡ read_lines prefix (l ∷ ls) []
unfolding config_values finish_lines
config_values-finish_lines l ls h =
    ap (λ t. read_lines prefix (splitlines t) []) (join-unlines l ls)
    ∙ ap (λ ms. read_lines prefix ms []) (splitlines-unlines (l ∷ ls) h)

settings-append :
    (xs ys : Dict Value) (d : Dict Text) → settings (xs ++ ys) d ≡ settings ys (settings xs d)
settings-append [] ys d = refl
settings-append ((k, v) ∷ xs) ys d = settings-append xs ys (apply_entry k v d)

-- Lines without breaks, from which the entries are read.
pub record IsBlock (entries : Dict Value) (lines : List Text) : Type 0 where
  pub no_break : All HasNoBreak lines
  pub reads : (d : Dict Text) → read_lines prefix lines d ≡ settings entries d

pub IsBlock-nil : IsBlock [] []
unfolding read_lines
IsBlock-nil = record { no_break = tt; reads = λ d. refl }

pub IsBlock-append :
    (xs ys : Dict Value) (ls ms : List Text)
    → IsBlock xs ls
    → IsBlock ys ms
    → IsBlock (xs ++ ys) (ls ++ ms)
IsBlock-append xs ys ls ms b c = record {
  no_break = All-append HasNoBreak ls ms b.no_break c.no_break;
  reads = λ d.
      read_lines-append prefix ls ms d
      ∙ ap (read_lines prefix ms) (b.reads d)
      ∙ c.reads (settings xs d)
      ∙ sym (settings-append xs ys d);
}

pub IsBlock-kconfig_lines :
    (entries : Dict Value) → All IsSingleLine entries → IsBlock entries (kconfig_lines entries)
IsBlock-kconfig_lines entries h = record {
  no_break = kconfig_lines-HasNoBreak entries h;
  reads = λ d. read_lines-kconfig_lines entries d h;
}

-- A heading before the lines of a loop, and an empty line behind them, set nothing.
pub IsBlock-under :
    (heading : List Text) (entries : Dict Value)
    → IsBlock [] heading
    → All IsSingleLine entries
    → IsBlock entries (heading ++ (kconfig_lines entries ++ ([] ∷ [])))
IsBlock-under heading entries b h =
    let last : IsBlock [] ([] ∷ []) = record {
      no_break = (tt, tt);
      reads = λ d. unfold read_lines read_line starts_with in refl;
    } in
    let body =
      IsBlock-append entries [] (kconfig_lines entries) ([] ∷ []) (IsBlock-kconfig_lines entries h)
        last in
    subst (λ es. IsBlock es (heading ++ (kconfig_lines entries ++ ([] ∷ [])))) (append-nil entries)
      (IsBlock-append [] (entries ++ []) heading _ b body)

-- `user_lines` writes the entries of a table, also of the empty one.
pub user_lines_lem :
    (heading : List Text) (fs : Fields)
    → IsBlock [] heading
    → All IsSingleLine (items fs)
    → (lines : List Text) × (user_lines heading (table fs) ≡ ok lines) × IsBlock (items fs) lines
unfolding user_lines entries_of
user_lines_lem heading end b h = ([], unfold truthy in refl, unfold items in IsBlock-nil)
user_lines_lem heading (field k v fs) b h =
    let entries = items (field k v fs) in
    (
      heading ++ (kconfig_lines entries ++ ([] ∷ [])),
      unfold truthy in refl,
      IsBlock-under heading entries b h,
    )
