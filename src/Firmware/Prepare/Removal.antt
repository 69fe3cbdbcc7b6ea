-- ===== src/Firmware/Prepare/Removal.antt =====
-- Which files scripts/prepare-opensbi.py removes.
use linux_build.Base.{
  Bool, true, false, ◌||◌, [], ◌∷◌, ◌++◌, ◌≡◌, refl, sym, ap, ◌∙◌, inl, inr, arith, none,
  if◌then◌else◌, Text, codes, text_eq, text_eq_iff, starts_with, text_in, ◌≢◌, Bool-cases,
}
use linux_build.Base.Dict.{lookup, lookup-erase}
use linux_build.Firmware.Prepare.{Files, remove_tree, payload, invalidate}

pub true≢false : true ≢ false
true≢false h = cc

pub lookup-remove_tree :
    (folder path : Text) (files : Files)
    → lookup path (remove_tree folder files)
      ≡ (if starts_with path (folder ++ codes "/") then none else lookup path files)
unfolding lookup remove_tree
lookup-remove_tree folder path [] = ground arith
lookup-remove_tree folder path ((k, v) ∷ files) = elim (Bool-cases (text_eq path k)) [
  | inl same ↦
      let is : path ≡ k = (text_eq_iff path k).0 same in
      elim (Bool-cases (starts_with k (folder ++ codes "/"))) [
        | inl below ↦
            rw (below, same, lookup) (lookup-remove_tree folder path files ∙ rw (is, below) refl)
        | inr beside ↦ rw (beside, lookup) (rw (same, is, beside) refl)
      ]
  | inr other ↦ elim (Bool-cases (starts_with k (folder ++ codes "/"))) [
    | inl below ↦ rw (below, other, lookup) (lookup-remove_tree folder path files)
    | inr beside ↦ rw (beside, lookup) (rw other (lookup-remove_tree folder path files))
  ]
]

abbrev pub is_built : Text → Bool
is_built path = starts_with path (codes "platform/") || starts_with path (codes "lib/")

pub invalidate-identity :
    (same_inputs : Bool) (path : Text) (files : Files)
    → lookup path (invalidate false same_inputs files)
      ≡ (if is_built path then none else lookup path files)
unfolding invalidate
invalidate-identity same_inputs path files =
    rw (lookup-remove_tree, lookup-remove_tree) (ground arith)

other-payload : (path suffix : Text) → is_built path ≡ false → text_eq path (payload suffix) ≡ false
unfolding starts_with
other-payload path suffix h = elim (Bool-cases (text_eq path (payload suffix))) [
  | inr e ↦ e
  | inl e ↦
      let is : path ≡ payload suffix = (text_eq_iff path (payload suffix)).0 e in
      absurd (true≢false (sym (ap is_built is) ∙ h))
]

pub invalidate-kept :
    (same_identity same_inputs : Bool) (path : Text) (files : Files)
    → is_built path ≡ false
    → lookup path (invalidate same_identity same_inputs files) ≡ lookup path files
invalidate-kept false same_inputs path files h =
    invalidate-identity same_inputs path files ∙ rw h refl
invalidate-kept true false path files h =
    unfold invalidate in
    rw (
      lookup-erase,
      other-payload path (codes "bin") h,
      lookup-erase,
      other-payload path (codes "elf") h,
      lookup-erase,
      other-payload path (codes "o") h,
    )
invalidate-kept true true path files h = unfold invalidate in refl

pub invalidate-payload :
    (suffix : Text) (files : Files)
    → text_in suffix (codes "o" ∷ codes "elf" ∷ codes "bin" ∷ []) ≡ true
    → lookup (payload suffix) (invalidate true false files) ≡ none
unfolding invalidate text_in text_eq
invalidate-payload suffix files h = rw (lookup-erase, lookup-erase, lookup-erase) (ground arith)
