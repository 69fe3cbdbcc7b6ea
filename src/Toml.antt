-- ===== src/Toml.antt =====
-- The Python values that `tomllib` gives, with the uses that scripts/gen-config.py,
-- scripts/release_common.py and scripts/build-distro.py make of them.
use linux_build.Base.{
  ℕ, suc, ◌+◌, ◌/◌, ◌%◌, Bool, true, false, not, ◌&&◌, ◌||◌, List, [], ◌∷◌, ◌++◌, Option, none,
  some, ltb, ◌==◌, if◌then◌else◌, Text, codes, text_eq, has_char, decimal, ℤ, pos, negsuc,
  bad_value, Result, ok, err, ◌>>=◌,
}
use linux_build.Base.Dict.{Dict}

-- A float or a date is kept as what `str` gives for it and whether it is true.
-- `null` is Python's `None`, which no file holds, but which a default may be.
mutual
  pub data Value : Type 0 where
    null : Value
    bool : Bool → Value
    int : ℤ → Value
    str : Text → Value
    other : Text → Bool → Value
    arr : Items → Value
    table : Fields → Value

  pub data Items : Type 0 where
    nil : Items
    cons : Value → Items → Items

  pub data Fields : Type 0 where
    end : Fields
    field : Text → Value → Fields → Fields

-- `bool(v)`
unfoldable pub truthy : Value → Bool
truthy null = false
truthy (bool b) = b
truthy (int (pos n)) = not (n == 0)
truthy (int (negsuc n)) = true
truthy (str []) = false
truthy (str (c ∷ s)) = true
truthy (other s b) = b
truthy (arr nil) = false
truthy (arr (cons v vs)) = true
truthy (table end) = false
truthy (table (field k v fs)) = true

-- `d.get(k)` on a table; `none` where the key is missing.
unfoldable pub get : Text → Fields → Option Value
get k end = none
get k (field j v fs) = if text_eq k j then some v else get k fs

-- `k in d` on a table
unfoldable pub has_key : Text → Fields → Bool
has_key k end = false
has_key k (field j v fs) = text_eq k j || has_key k fs

-- `d.items()`
unfoldable pub items : Fields → Dict Value
items end = []
items (field k v fs) = (k, v) ∷ items fs

unfoldable pub int_text : ℤ → Text
int_text (pos n) = decimal n
int_text (negsuc n) = b'-' ∷ decimal (suc n)

hex_digit : ℕ → ℕ
hex_digit d = if ltb d 10 then b'0' + d else 87 + d

escaped : ℕ → ℕ → Text
escaped quote c =
    if c == b'\\' || c == quote
    then b'\\' ∷ c ∷ []
    else if c == b'\n'
    then codes "\\n"
    else if c == b'\t'
    then codes "\\t"
    else if c == 13
    then codes "\\r"
    else if ltb c 32 || c == 127
    then codes "\\x" ++ (hex_digit (c / 16) ∷ hex_digit (c % 16) ∷ [])
    else c ∷ []

escape_all : ℕ → Text → Text
escape_all quote [] = quote ∷ []
escape_all quote (c ∷ s) = escaped quote c ++ escape_all quote s

-- `repr` of a text
pub text_repr : Text → Text
text_repr s =
    let quote : ℕ = if has_char 39 s && not (has_char 34 s) then 34 else 39 in
    quote ∷ escape_all quote s

-- `repr(v)`; the members of a sequence after the first are preceded by a comma.
unfoldable mutual
  pub repr : Value → Text
  repr null = codes "None"
  repr (bool true) = codes "True"
  repr (bool false) = codes "False"
  repr (int n) = int_text n
  repr (str s) = text_repr s
  repr (other s b) = s
  repr (arr nil) = codes "[]"
  repr (arr (cons v vs)) = b'[' ∷ (repr v ++ more_items vs)
  repr (table end) = codes "{}"
  repr (table (field k v fs)) = b'{' ∷ (text_repr k ++ (codes ": " ++ (repr v ++ more_fields fs)))

  pub more_items : Items → Text
  more_items nil = codes "]"
  more_items (cons v vs) = codes ", " ++ (repr v ++ more_items vs)

  pub more_fields : Fields → Text
  more_fields end = codes "}"
  more_fields (field k v fs) =
      codes ", " ++ (text_repr k ++ (codes ": " ++ (repr v ++ more_fields fs)))

-- `str(v)`, which an f-string writes
unfoldable pub to_text : Value → Text
unfolding repr
to_text (str s) = s
to_text v = repr v

-- `v == s` for a text `s`
unfoldable pub is_text : Value → Text → Bool
is_text (str t) s = text_eq t s
is_text _ s = false

-- Whether `v` can be looked up in a dictionary: a list and a table raise TypeError.
unfoldable pub hashable : Value → Bool
hashable (arr vs) = false
hashable (table fs) = false
hashable _ = true

texts_of_items : Items → Result (List Text)
texts_of_items nil = ok []
texts_of_items (cons (str s) vs) = do ts ← texts_of_items vs; ok (s ∷ ts)
texts_of_items (cons _ vs) = err bad_value

texts_of_fields : Fields → List Text
texts_of_fields end = []
texts_of_fields (field k v fs) = k ∷ texts_of_fields fs

texts_of_chars : Text → List Text
texts_of_chars [] = []
texts_of_chars (c ∷ s) = (c ∷ []) ∷ texts_of_chars s

-- The texts that iterating over `v` gives, where each member must be one: a text gives its
-- characters, a table its keys.
unfoldable pub texts_of : Value → Result (List Text)
unfolding texts_of_items texts_of_fields texts_of_chars
texts_of (arr vs) = texts_of_items vs
texts_of (str s) = ok (texts_of_chars s)
texts_of (table fs) = ok (texts_of_fields fs)
texts_of _ = err bad_value
