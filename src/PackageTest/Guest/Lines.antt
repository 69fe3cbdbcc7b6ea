-- ===== src/PackageTest/Guest/Lines.antt =====
-- The lines of a session do not depend on how its output arrives.
use linux_build.Base.{
  ◌++◌, Bool, true, false, List, [], ◌∷◌, Text, newline, ◌==◌, ◌≡◌, refl, ap, sym, ◌∙◌, Bool-cases,
  inl, inr, ==_iff, ℕ,
}
use linux_build.PackageTest.Guest.{split_lines, add_char, joined}

joined-add_char :
    (b : Bool) (c : ℕ) (p : List Text × Text)
    → (b ≡ true → c ≡ newline)
    → joined (add_char b c p).0 (add_char b c p).1 ≡ c ∷ joined p.0 p.1
unfolding joined add_char
joined-add_char true c (ls, rest) h = ap (λ d. d ∷ joined ls rest) (sym (h refl))
joined-add_char false c ([], rest) h = refl
joined-add_char false c (l ∷ ls, rest) h = refl

-- Nothing is lost.
pub joined-split_lines : (s : Text) → joined (split_lines s).0 (split_lines s).1 ≡ s
unfolding split_lines
joined-split_lines [] = unfold joined in refl
joined-split_lines (c ∷ s) =
    joined-add_char (c == newline) c (split_lines s) (λ h. (==_iff c newline).0 h)
    ∙ ap (◌∷◌ c) (joined-split_lines s)

-- Lines behind those of a text.
abbrev pub onto : List Text → List Text × Text → List Text × Text
onto ls second = (ls ++ second.0, second.1)

onto-add_char :
    (c : ℕ) (p : List Text × Text) (b : Text)
    → add_char (c == newline) c (onto p.0 (split_lines (p.1 ++ b)))
      ≡ onto (add_char (c == newline) c p).0 (split_lines ((add_char (c == newline) c p).1 ++ b))
unfolding add_char split_lines
onto-add_char c (ls, rest) b = elim (Bool-cases (c == newline)) [
  | inl e ↦ rw e refl
  | inr e ↦ rw e (go ls rest e)
]
  where
    go :
        (ls : List Text) (rest : Text)
        → (c == newline) ≡ false
        → add_char false c (onto ls (split_lines (rest ++ b)))
          ≡ onto
              (add_char false c (ls, rest)).0
              (split_lines ((add_char false c (ls, rest)).1 ++ b))
    go [] rest e = ap (λ t. add_char t c (split_lines (rest ++ b))) (sym e)
    go (l ∷ ls) rest e = refl

-- A text that arrives in two parts has the lines of the first, and then those of the second behind
-- what the first leaves.
pub split_lines-append :
    (a b : Text)
    → split_lines (a ++ b) ≡ onto (split_lines a).0 (split_lines ((split_lines a).1 ++ b))
unfolding split_lines
split_lines-append [] b = refl
split_lines-append (c ∷ a) b =
    ap (add_char (c == newline) c) (split_lines-append a b) ∙ onto-add_char c (split_lines a) b
