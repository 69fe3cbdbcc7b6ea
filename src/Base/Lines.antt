-- ===== src/Base/Lines.antt =====
-- `str.splitlines`, and that it undoes the joining of lines which hold no line break.
use Prim.Native.Nat.{ℕ}
use mathlib.Core.Path.{◌≡◌, refl, ap, ◌∙◌}
use mathlib.Core.Bool.{Bool, true, false, ◌&&◌, ◌||◌}
use mathlib.Core.List.{List, [], ◌∷◌, ◌++◌, append_assoc, append-nil}
use native.Mathlib.Omega.{arith}
use linux_build.Base.Tests.{leb, ◌==◌, if◌then◌else◌}
use linux_build.Base.Lists.{All, All-append, all}
use linux_build.Base.Texts.{Text, newline, join}

-- The characters that `str.splitlines` splits at.
unfoldable pub is_break : ℕ → Bool
is_break c =
    (leb 10 c && leb c 13) || (leb 28 c && leb c 30) || c == 0x85 || c == 0x2028 || c == 0x2029

last_line : Text → List Text
last_line [] = []
last_line (c ∷ s) = (c ∷ s) ∷ []

-- The rest of the lines, from the text read since the last break. The flag says that the last
-- character was a carriage return, with which a newline makes one break.
unfoldable pub lines_from : Bool → Text → Text → List Text
unfolding last_line
lines_from after_cr line [] = last_line line
lines_from after_cr line (c ∷ s) = elim (after_cr && c == 10) [
  | true ↦ lines_from false line s
  | false ↦ elim (is_break c) [
    | true ↦ line ∷ lines_from (c == 13) [] s
    | false ↦ lines_from false (line ++ (c ∷ [])) s
  ]
]

unfoldable pub splitlines : Text → List Text
unfolding lines_from
splitlines = lines_from false []

abbrev pub HasNoBreak : Text → Type 0
HasNoBreak = All (λ c. is_break c ≡ false)

lines_from-no_break :
    (c : ℕ) (line rest : Text)
    → is_break c ≡ false
    → lines_from false line (c ∷ rest) ≡ lines_from false (line ++ (c ∷ [])) rest
unfolding lines_from
lines_from-no_break c line rest h = rw (h, lines_from)

lines_from-newline :
    (line rest : Text) → lines_from false line (newline ∷ rest) ≡ line ∷ lines_from false [] rest
unfolding lines_from is_break
lines_from-newline line rest = refl

lines_from-append :
    (l line rest : Text)
    → HasNoBreak l
    → lines_from false line (l ++ (newline ∷ rest)) ≡ (line ++ l) ∷ lines_from false [] rest
lines_from-append [] line rest h = rw append-nil (lines_from-newline line rest)
lines_from-append (c ∷ l) line rest h =
    lines_from-no_break c line (l ++ (newline ∷ rest)) h.0
    ∙ lines_from-append l (line ++ (c ∷ [])) rest h.1
    ∙ rw append_assoc

-- Every line, each followed by a newline.
unfoldable pub unlines : List Text → Text
unlines [] = []
unlines (l ∷ ls) = l ++ (newline ∷ unlines ls)

pub splitlines-unlines : (ls : List Text) → All HasNoBreak ls → splitlines (unlines ls) ≡ ls
unfolding unlines splitlines
splitlines-unlines [] h = refl
splitlines-unlines (l ∷ ls) h =
    lines_from-append l [] (unlines ls) h.0 ∙ ap (◌∷◌ l) (splitlines-unlines ls h.1)

-- What the generators return, for at least one line.
pub join-unlines :
    (l : Text) (ls : List Text) → join (newline ∷ []) (l ∷ ls) ++ (newline ∷ []) ≡ unlines (l ∷ ls)
unfolding join unlines
join-unlines l [] = refl
join-unlines l (m ∷ ls) =
    append_assoc l _ _ ∙ ap (λ rest. l ++ (newline ∷ rest)) (join-unlines m ls)

-- A test for the literal parts of a text.
unfoldable pub has_no_break : Text → Bool
unfolding is_break
has_no_break [] = true
has_no_break (c ∷ s) = if is_break c then false else has_no_break s

pub has_no_break-HasNoBreak : (s : Text) → has_no_break s ≡ true → HasNoBreak s
has_no_break-HasNoBreak [] h = tt
has_no_break-HasNoBreak (c ∷ s) h = (
  unfold has_no_break in ground arith,
  has_no_break-HasNoBreak s (unfold has_no_break in ground arith),
)

-- A text between two literals.
pub between-HasNoBreak :
    (before s after : Text)
    → has_no_break before ≡ true
    → has_no_break after ≡ true
    → HasNoBreak s
    → HasNoBreak (before ++ (s ++ after))
between-HasNoBreak before s after hb ha h =
    All-append _ before (s ++ after) (has_no_break-HasNoBreak before hb)
      (All-append _ s after h (has_no_break-HasNoBreak after ha))

pub all_no_break-HasNoBreak : (ls : List Text) → all has_no_break ls ≡ true → All HasNoBreak ls
all_no_break-HasNoBreak [] h = tt
all_no_break-HasNoBreak (l ∷ ls) h =
    (has_no_break-HasNoBreak l (ground arith), all_no_break-HasNoBreak ls (ground arith))

-- Whether there is a line.
abbrev pub has_line : List Text → Bool
has_line [] = false
has_line (l ∷ ls) = true

lines_from-has_line :
    (after_cr : Bool) (c : ℕ) (line s : Text) → has_line (lines_from after_cr (c ∷ line) s) ≡ true
unfolding lines_from
lines_from-has_line after_cr c line [] = refl
lines_from-has_line after_cr c line (d ∷ s) =
    ground
      (arith, lines_from-has_line false c line s, lines_from-has_line false c (line ++ (d ∷ [])) s)

-- A text that is not empty has a line.
pub splitlines-has_line : (c : ℕ) (s : Text) → has_line (splitlines (c ∷ s)) ≡ true
unfolding splitlines lines_from
splitlines-has_line c s = ground (arith, lines_from-has_line false c [] s)
