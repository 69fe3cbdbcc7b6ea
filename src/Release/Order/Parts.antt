-- ===== src/Release/Order/Parts.antt =====
-- The parts that `s.split(c)` finds in a text that was put together.
use mathlib.Core.List.{append_assoc, append-nil}
use linux_build.Base.{
  ℕ, ◌==◌, Bool, true, false, ◌||◌, List, [], ◌∷◌, ◌++◌, ◌≡◌, sym, ap, ◌∙◌, arith, Text, has_char,
  All, join,
}
use linux_build.Release.Order.{split_from}

pub ||_false : (a b : Bool) → (a || b) ≡ false → (a ≡ false) × (b ≡ false)
||_false a b h = ground arith

pub ==_refl : (c : ℕ) → (c == c) ≡ true
==_refl c = ground arith

pub split_from-end :
    (c : ℕ) (s part : Text) → has_char c s ≡ false → split_from c part s ≡ (part ++ s) ∷ []
unfolding split_from has_char
split_from-end c [] part h = ap (λ x. x ∷ []) (sym (append-nil part))
split_from-end c (x ∷ s) part h =
    let (other, rest) = ||_false (x == c) (has_char c s) h in
    rw other
      (split_from-end c s (part ++ (x ∷ [])) rest ∙ ap (λ y. y ∷ []) (append_assoc part (x ∷ []) s))

pub split_from-part :
    (c : ℕ) (s t part : Text)
    → has_char c s ≡ false
    → split_from c part (s ++ (c ∷ t)) ≡ (part ++ s) ∷ split_from c [] t
unfolding split_from has_char
split_from-part c [] t part h =
    rw (==_refl c) (ap (λ y. y ∷ split_from c [] t) (sym (append-nil part)))
split_from-part c (x ∷ s) t part h =
    let (other, rest) = ||_false (x == c) (has_char c s) h in
    rw other (
      split_from-part c s t (part ++ (x ∷ [])) rest
      ∙ ap (λ y. y ∷ split_from c [] t) (append_assoc part (x ∷ []) s))

-- What was joined is split again into the same parts.
pub split_from-join :
    (c : ℕ) (t : Text) (ts : List Text)
    → All (λ s. has_char c s ≡ false) (t ∷ ts)
    → split_from c [] (join (c ∷ []) (t ∷ ts)) ≡ t ∷ ts
unfolding join
split_from-join c t [] h = split_from-end c t [] h.0
split_from-join c t (u ∷ ts) h =
    split_from-part c t (join (c ∷ []) (u ∷ ts)) [] h.0
    ∙ ap (λ rest. t ∷ rest) (split_from-join c u ts h.1)
