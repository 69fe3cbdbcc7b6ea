-- ===== src/Base/Shell.antt =====
-- Python's `shlex.quote`, and `str.lower` for ASCII.
use linux_build.Base.Texts.{Text, has_char}
use linux_build.Base.Tests.{leb, ◌==◌, if◌then◌else◌}
use Prim.Native.Nat.{ℕ, ◌+◌}
use mathlib.Core.Bool.{Bool, true, ◌&&◌, ◌||◌}
use mathlib.Core.List.{[], ◌∷◌, map}
use linux_build.Base.Texts.{codes}

abbrev lower_char : ℕ → ℕ
lower_char c = if leb b'A' c && leb c b'Z' then c + 32 else c

-- `s.lower()`
unfoldable pub lower : Text → Text
lower = map lower_char

-- Whether the shell reads the character as itself.
abbrev is_plain_char : ℕ → Bool
is_plain_char c =
    (leb b'a' c && leb c b'z')
    || (leb b'A' c && leb c b'Z')
    || (leb b'0' c && leb c b'9')
    || has_char c (codes "_@%+=:,./-")

all_plain : Text → Bool
all_plain [] = true
all_plain (c ∷ s) = is_plain_char c && all_plain s

escape_quotes : Text → Text
escape_quotes [] = 39 ∷ []
escape_quotes (c ∷ s) =
    if c == 39 then 39 ∷ 34 ∷ 39 ∷ 34 ∷ 39 ∷ escape_quotes s else c ∷ escape_quotes s

-- `shlex.quote(s)`
unfoldable pub shell_quote : Text → Text
unfolding all_plain escape_quotes
shell_quote [] = 39 ∷ 39 ∷ []
shell_quote (c ∷ s) = if all_plain (c ∷ s) then c ∷ s else 39 ∷ escape_quotes (c ∷ s)
