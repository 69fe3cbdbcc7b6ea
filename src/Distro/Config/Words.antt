-- ===== src/Distro/Config/Words.antt =====
-- The packages of a preset as they stand in the provisioning script of scripts/build-distro.py.
use mathlib.Core.Path.{subst}
use linux_build.Base.{
  ℕ, Bool, true, false, ◌||◌, List, [], ◌∷◌, some, ◌==◌, ℤ, pos, leb_ℤ, Text, codes, has_char, join,
  ok, ◌≡◌, refl, sym, ap, ◌∙◌, arith, All, &&_iff, >>=-eq-ok, >>-eq-ok, ok-inj, false≢true, err≢ok,
  Option-cases, inl, inr,
}
use linux_build.Toml.{
  Value, Items, Fields, nil, cons, null, bool, int, str, other, arr, table, get, is_text,
}
use linux_build.Release.Matrix.{subscript}
use linux_build.Release.Order.{split_from}
use linux_build.Release.Order.Parts.{split_from-join}
use linux_build.Distro.Config.{
  is_lower, is_digit, all_chars, is_package, all_names, packages_of, are_names, is_size,
  reference_ok, fields_of, in_distros, load_config, names_of, package_list,
}

-- A character that a shell takes for itself, outside quotes, in a word.
abbrev pub is_literal : ℕ → Bool
is_literal c = is_lower c || is_digit c || has_char c (codes "+_.-")

-- Whether a word is there, and no option.
abbrev pub is_operand : Text → Bool
is_operand [] = false
is_operand (c ∷ s) = is_lower c || is_digit c

abbrev pub IsWord : Text → Type 0
IsWord s = (is_operand s ≡ true) × All (λ c. is_literal c ≡ true) s

-- The names as values of a preset.
unfoldable pub texts : List Text → Items
texts [] = nil
texts (s ∷ ss) = cons (str s) (texts ss)

-- The settings of a root filesystem, with the packages and the words in the script.
pub record IsPlain (fs : Fields) : Type 0 where
  pub names : List Text
  pub packages : packages_of fs ≡ arr (texts names)
  pub list : package_list fs ≡ join (codes " ") names
  pub words :
      (n : Text) (ns : List Text) → names ≡ n ∷ ns → split_from b' ' [] (package_list fs) ≡ names
  pub plain : All IsWord names

literal_first : (c : ℕ) → (is_lower c || is_digit c) ≡ true → is_literal c ≡ true
literal_first c h = ground arith

all_chars-All : (p : ℕ → Bool) (s : Text) → all_chars p s ≡ true → All (λ c. p c ≡ true) s
unfolding all_chars
all_chars-All p [] h = tt
all_chars-All p (c ∷ s) h =
    let (now, rest) = (&&_iff (p c) (all_chars p s)).0 h in (now, all_chars-All p s rest)

is_package-IsWord : (s : Text) → is_package s ≡ true → IsWord s
unfolding is_package
is_package-IsWord [] h = absurd (false≢true h)
is_package-IsWord (c ∷ s) h =
    let (first, rest) = (&&_iff _ _).0 h in
    (first, (literal_first c first, all_chars-All is_literal s rest))

literal_no_space : (c : ℕ) → is_literal c ≡ true → (c == b' ') ≡ false
unfolding has_char
literal_no_space c h = ground arith

literal-no_space : (s : Text) → All (λ c. is_literal c ≡ true) s → has_char b' ' s ≡ false
unfolding has_char
literal-no_space [] h = refl
literal-no_space (c ∷ s) h = rw (literal_no_space c h.0) (literal-no_space s h.1)

all_names-texts :
    (vs : Items) → all_names vs ≡ true → (vs ≡ texts (names_of vs)) × All IsWord (names_of vs)
unfolding all_names names_of texts
all_names-texts nil h = (refl, tt)
all_names-texts (cons (str s) vs) h =
    let (now, rest) = (&&_iff (is_package s) (all_names vs)).0 h in
    let (same, words) = all_names-texts vs rest in
    (ap (cons (str s)) same, (is_package-IsWord s now, words))
all_names-texts (cons null vs) h = absurd (false≢true h)
all_names-texts (cons (bool b) vs) h = absurd (false≢true h)
all_names-texts (cons (int n) vs) h = absurd (false≢true h)
all_names-texts (cons (other s b) vs) h = absurd (false≢true h)
all_names-texts (cons (arr us) vs) h = absurd (false≢true h)
all_names-texts (cons (table fs) vs) h = absurd (false≢true h)

-- A list of names, by what the test of the packages finds.
are_names-arr :
    (v : Value) → are_names v ≡ true → (vs : Items) × (v ≡ arr vs) × (all_names vs ≡ true)
unfolding are_names
are_names-arr (arr vs) h = (vs, refl, h)
are_names-arr null h = absurd (false≢true h)
are_names-arr (bool b) h = absurd (false≢true h)
are_names-arr (int n) h = absurd (false≢true h)
are_names-arr (str s) h = absurd (false≢true h)
are_names-arr (other s b) h = absurd (false≢true h)
are_names-arr (table fs) h = absurd (false≢true h)

no_spaces : (ns : List Text) → All IsWord ns → All (λ s. has_char b' ' s ≡ false) ns
no_spaces [] h = tt
no_spaces (n ∷ ns) h = (literal-no_space n h.0.1, no_spaces ns h.1)

package_list_of :
    (fs : Fields) (vs : Items)
    → packages_of fs ≡ arr vs
    → package_list fs ≡ join (codes " ") (names_of vs)
unfolding package_list
package_list_of fs vs is = rw (is, package_list) refl

are_names-IsPlain : (fs : Fields) → are_names (packages_of fs) ≡ true → IsPlain fs
are_names-IsPlain fs h =
    let (vs, is, all) = are_names-arr (packages_of fs) h in
    let (same, plain) = all_names-texts vs all in
    let list : package_list fs ≡ join (codes " ") (names_of vs) = package_list_of fs vs is in
    record {
      names = names_of vs;
      packages = is ∙ ap arr same;
      list = list;
      words = λ n ns e.
          ap (split_from b' ' []) (list ∙ ap (join (codes " ")) e)
          ∙ split_from-join b' ' n ns (no_spaces (n ∷ ns) (subst (All IsWord) e plain))
          ∙ sym e;
      plain = plain;
    }

-- A size that is a number, and large enough.
abbrev pub HasSize : Fields → Type 0
HasSize fs = (n : ℤ) × (get (codes "size_mib") fs ≡ some (int n)) × (leb_ℤ (pos 128) n ≡ true)

is_size-int : (v : Value) → is_size v ≡ true → (n : ℤ) × (v ≡ int n) × (leb_ℤ (pos 128) n ≡ true)
unfolding is_size
is_size-int (int n) h = (n, refl, h)
is_size-int (arr vs) h = absurd (false≢true h)
is_size-int null h = absurd (false≢true h)
is_size-int (bool b) h = absurd (false≢true h)
is_size-int (str s) h = absurd (false≢true h)
is_size-int (other s b) h = absurd (false≢true h)
is_size-int (table fs) h = absurd (false≢true h)

subscript-get :
    (v : Value) (k : Text) {fs : Fields} {w : Value}
    → fields_of v ≡ ok fs
    → subscript v k ≡ ok w
    → get k fs ≡ some w
unfolding subscript fields_of
subscript-get (table gs) k {fs} e h = elim (Option-cases (get k gs)) [
  | inl none_is ↦ absurd (err≢ok (rw (none_is, subscript) at h))
  | inr (w, some_is) ↦
      ap (get k) (sym (ok-inj e)) ∙ some_is ∙ ap some (ok-inj (rw (some_is, subscript) at h))
]
subscript-get null k e h = absurd (err≢ok e)
subscript-get (arr vs) k e h = absurd (err≢ok e)
subscript-get (bool b) k e h = absurd (err≢ok e)
subscript-get (int n) k e h = absurd (err≢ok e)
subscript-get (str s) k e h = absurd (err≢ok e)
subscript-get (other s b) k e h = absurd (err≢ok e)

-- Where `load_config` accepts a preset, the words of the package list in the provisioning script are exactly the
-- packages of the preset, none of them is an option, and no character of them means anything to the shell; and the
-- disk is to have at least 128 MiB.
pub load_config-IsPlain :
    (cfg : Fields) {fs : Fields} → load_config cfg ≡ ok fs → IsPlain fs × HasSize fs
unfolding load_config
load_config-IsPlain cfg {fs} h =
    let (v, e₁, h₁) = >>=-eq-ok (subscript (table cfg) (codes "rootfs")) _ h in
    let (target, e₂, h₂) = >>=-eq-ok (subscript (table cfg) (codes "target")) _ h₁ in
    let (arch, e₃, h₃) = >>=-eq-ok (subscript target (codes "arch")) _ h₂ in
    let (is_arch, h₄) = >>-eq-ok (is_text arch (codes "riscv64")) _ _ h₃ in
    let (kind, e₅, h₅) = >>=-eq-ok (subscript v (codes "type")) _ h₄ in
    let (known, h₆) = >>-eq-ok (in_distros kind) _ _ h₅ in
    let (image, e₇, h₇) = >>=-eq-ok (subscript v (codes "image")) _ h₆ in
    let (valid, e₈, h₈) = >>=-eq-ok (reference_ok image) _ h₇ in
    let (is_valid, h₉) = >>-eq-ok valid _ _ h₈ in
    let (size, e₁₀, h₁₀) = >>=-eq-ok (subscript v (codes "size_mib")) _ h₉ in
    let (enough, h₁₁) = >>-eq-ok (is_size size) _ _ h₁₀ in
    let (rootfs, e₁₂, h₁₂) = >>=-eq-ok (fields_of v) _ h₁₁ in
    let (named, h₁₃) = >>-eq-ok (are_names (packages_of rootfs)) _ _ h₁₂ in
    let (n, is_number, large) = is_size-int size enough in
    let same : rootfs ≡ fs = ok-inj h₁₃ in
    (
      are_names-IsPlain fs (ap (λ x. are_names (packages_of x)) (sym same) ∙ named),
      (n, subscript-get v (codes "size_mib") (e₁₂ ∙ ap ok same) e₁₀ ∙ ap some is_number, large),
    )
