-- ===== src/Config/Buildroot/Order.antt =====
-- `gen_buildroot_config` of scripts/gen-config.py, on a preset with its packages in another order.
use linux_build.Base.{
  some, true, false, List, [], ◌∷◌, ◌++◌, ◌≡◌, refl, ap, ◌∙◌, arith, Text, text_le, text_eq,
}
use mathlib.Core.List.{Perm, Permᴰ}
use mathlib.Core.Logic.{∥∥₁_elim}
use linux_build.Base.{codes, Result, ok, map, Bool-cases, inl, inr, sym}
use linux_build.Toml.{null, Value, Items, nil, cons, str, arr, truthy, texts_of}
use linux_build.Config.Lookup.{walk}
use linux_build.Config.Lookup.Places.{set_in, set_in-own, deep_get-set_in, deep_get-apart}
use linux_build.Config.Buildroot.{
  insert_sorted, sorted, packages_key, pkg_symbol, package_lines, buildroot_lines,
  gen_buildroot_config,
}

text_le_total : (a b : Text) → text_le a b ≡ false → text_le b a ≡ true
unfolding text_le
text_le_total [] b h = cc
text_le_total (x ∷ a) [] h = refl
text_le_total (x ∷ a) (y ∷ b) h = ground (arith, text_le_total a b)

text_le_antisym : (a b : Text) → text_le a b ≡ true → text_le b a ≡ true → a ≡ b
unfolding text_le
text_le_antisym [] [] h k = refl
text_le_antisym [] (y ∷ b) h k = cc
text_le_antisym (x ∷ a) [] h k = cc
text_le_antisym (x ∷ a) (y ∷ b) h k = ground (arith, text_le_antisym a b)

text_le_trans : (a b c : Text) → text_le a b ≡ true → text_le b c ≡ true → text_le a c ≡ true
unfolding text_le
text_le_trans [] b c h k = refl
text_le_trans (x ∷ a) [] c h k = cc
text_le_trans (x ∷ a) (y ∷ b) [] h k = cc
text_le_trans (x ∷ a) (y ∷ b) (z ∷ c) h k = ground (arith, text_le_trans a b c)

insert_sorted_comm :
    (x y : Text) (l : List Text)
    → insert_sorted x (insert_sorted y l) ≡ insert_sorted y (insert_sorted x l)
unfolding insert_sorted
insert_sorted_comm x y [] =
    ground (arith, text_le_total x y, text_le_total y x, text_le_antisym x y)
insert_sorted_comm x y (u ∷ l) = ground (
  arith,
  text_le_total x y,
  text_le_total y x,
  text_le_antisym x y,
  text_le_trans x y u,
  text_le_trans y x u,
  insert_sorted_comm x y l,
)

sorted-permᴰ : {xs ys : List Text} → Permᴰ xs ys → sorted xs ≡ sorted ys
unfolding sorted
sorted-permᴰ Permᴰ.nil = refl
sorted-permᴰ (Permᴰ.cons {l₁ = xs} {l₂ = ys} e p) = cc (e, sorted-permᴰ p)
sorted-permᴰ (Permᴰ.swap {a = x} {b = y} {l = l} d e) =
    rw (← d, ← e) (insert_sorted_comm x y (sorted l))
sorted-permᴰ (Permᴰ.trans p q) = sorted-permᴰ p ∙ sorted-permᴰ q

Text-set : IsSet Text
Text-set = hlevel

-- Lists with the same members sort alike.
pub sorted-perm : {xs ys : List Text} → Perm xs ys → sorted xs ≡ sorted ys
sorted-perm {xs} {ys} p = ∥∥₁_elim p (Texts-set (sorted xs) (sorted ys)) sorted-permᴰ
  where
    Texts-set : IsSet (List Text)
    Texts-set = hlevel Text-set

-- A list of names as a value of a preset.
abbrev pub listing : List Text → Items
listing [] = nil
listing (n ∷ ns) = cons (str n) (listing ns)

-- The lines for names that are sorted already.
block : List Text → List Text
block names =
    codes "# --- Packages ---" ∷ (map (λ name. pkg_symbol name ++ codes "=y") names ++ ([] ∷ []))

block_unless_empty : List Text → Result (List Text)
block_unless_empty [] = ok []
block_unless_empty (n ∷ ns) = ok (block (n ∷ ns))

block-insert_sorted :
    (n : Text) (ns : List Text)
    → block_unless_empty (insert_sorted n ns) ≡ ok (block (insert_sorted n ns))
unfolding block_unless_empty insert_sorted
block-insert_sorted n [] = refl
block-insert_sorted n (m ∷ ns) = elim (Bool-cases (text_le n m)) [ inl e ↦ rw e | inr e ↦ rw e ]

texts_of-listing : (ns : List Text) → texts_of (arr (listing ns)) ≡ ok ns
unfolding texts_of
texts_of-listing [] = refl
texts_of-listing (n ∷ ns) = rw (texts_of-listing ns)

package_lines-listing :
    (ns : List Text) → package_lines (arr (listing ns)) ≡ block_unless_empty (sorted ns)
unfolding package_lines block truthy
package_lines-listing [] = unfold truthy sorted block_unless_empty in refl
package_lines-listing (n ∷ ns) =
    rw texts_of-listing (unfold truthy sorted in sym (block-insert_sorted n (sorted ns)))

package_lines-perm :
    {ns ms : List Text}
    → Perm ns ms
    → package_lines (arr (listing ns)) ≡ package_lines (arr (listing ms))
package_lines-perm {ns} {ms} p =
    package_lines-listing ns
    ∙ ap block_unless_empty (sorted-perm p)
    ∙ sym (package_lines-listing ms)

abbrev pub include_key : List Text
include_key = packages_key (codes "include")

-- For a preset that lists its packages, the order in which it lists them does not matter: the preset with the same
-- packages in another order, and all else as it was, gives the same fragment.
pub gen_buildroot_config-perm :
    (root : Text) (cfg : Value) {ns ms : List Text}
    → walk cfg include_key ≡ some (arr (listing ns))
    → Perm ns ms
    → gen_buildroot_config root cfg
      ≡ gen_buildroot_config root (set_in include_key (arr (listing ms)) cfg)
unfolding gen_buildroot_config buildroot_lines text_eq
gen_buildroot_config-perm root cfg {ns} {ms} listed p =
    let old = arr (listing ns) in
    let new = arr (listing ms) in
    ap (gen_buildroot_config root) (sym (set_in-own include_key cfg listed))
    ∙ rw
        (
          deep_get-set_in include_key old cfg (arr nil),
          deep_get-set_in include_key new cfg (arr nil),
          deep_get-apart include_key (codes "rootfs" ∷ codes "compression" ∷ []) old new cfg
              (str (codes "gzip")) (inl refl),
          deep_get-apart include_key (packages_key (codes "shell")) old new cfg null
              (inr (refl, inr (refl, inl refl))),
          deep_get-apart include_key (packages_key (codes "root_password")) old new cfg null
              (inr (refl, inr (refl, inl refl))),
          package_lines-perm p,
        )
        refl
