-- ===== src/Base/Words.antt =====
-- What the code does with texts: `split`, `strip`, `rsplit(c, 1)`, `lower`, `startswith` and `replace`.
-- Header names and values are ASCII here: `lower` and `strip` know the letters and the spaces of it.
use Prim.Native.Nat.{ℕ, zero, suc, ◌-◌}
use Prim.Native.Char.{Char, code}
use Prim.Native.String.{String, ◌++◌ as cat}
use mathlib.Core.Bool.{Bool, ◌&&◌, ◌||◌}
use mathlib.Core.Option.{Option, none, some}
use mathlib.Core.List.{List, [], ◌∷◌}
use swiftacular.Base.Tests.{leb, ◌==◌, if◌then◌else◌, is_some}

abbrev pub is_char : Char → Char → Bool
is_char a b = code a == code b

abbrev pub onto_first : Char → List String → List String
onto_first c [] = String.◌∷◌ c String.[] ∷ []
onto_first c (w ∷ ws) = String.◌∷◌ c w ∷ ws

-- `text.split(separator)`: one piece more than there are separators.
unfoldable pub split : Char → String → List String
split separator String.[] = "" ∷ []
split separator (String.◌∷◌ c s) =
    let rest = split separator s in if is_char c separator then "" ∷ rest else onto_first c rest

-- `text.split()`: the pieces between spaces that are not empty.
abbrev pub unless_empty : String → List String → List String
unless_empty String.[] ws = ws
unless_empty (String.◌∷◌ c w) ws = String.◌∷◌ c w ∷ ws

abbrev pub is_space : Char → Bool
is_space c =
    code c == 32 || (leb 9 (code c) && leb (code c) 13) || (leb 28 (code c) && leb (code c) 31)

-- The piece that `s` begins with, and those after it.
abbrev pub at_space : Char → String × List String → String × List String
at_space c (w, ws) = if is_space c then ("", unless_empty w ws) else (String.◌∷◌ c w, ws)

unfoldable pub pieces : String → String × List String
pieces String.[] = ("", [])
pieces (String.◌∷◌ c s) = at_space c (pieces s)

unfoldable pub fields : String → List String
unfolding pieces
fields s = unless_empty (pieces s).0 (pieces s).1

-- `text.rsplit(separator, 1)` that must have two pieces.
abbrev pub at_separator : Char → Char → String → Option (String × String) → Option (String × String)
at_separator separator c s (some (a, b)) = some (String.◌∷◌ c a, b)
at_separator separator c s none = if is_char c separator then some (String.[], s) else none

unfoldable pub rsplit : Char → String → Option (String × String)
rsplit separator String.[] = none
rsplit separator (String.◌∷◌ c s) = at_separator separator c s (rsplit separator s)

unfoldable pub lstrip : String → String
lstrip String.[] = String.[]
lstrip (String.◌∷◌ c s) = if is_space c then lstrip s else String.◌∷◌ c s

abbrev pub unless_blank : Char → String → String
unless_blank c String.[] = if is_space c then String.[] else String.◌∷◌ c String.[]
unless_blank c (String.◌∷◌ d s) = String.◌∷◌ c (String.◌∷◌ d s)

unfoldable pub rstrip : String → String
rstrip String.[] = String.[]
rstrip (String.◌∷◌ c s) = unless_blank c (rstrip s)

unfoldable pub strip : String → String
unfolding lstrip rstrip
strip s = rstrip (lstrip s)

abbrev pub char_from : Char → String → String → Char
char_from c String.[] to = c
char_from c (String.◌∷◌ d from) String.[] = c
char_from c (String.◌∷◌ d from) (String.◌∷◌ e to) = if is_char c d then e else char_from c from to

unfoldable pub lower : String → String
lower String.[] = String.[]
lower (String.◌∷◌ c s) =
    String.◌∷◌ (char_from c "ABCDEFGHIJKLMNOPQRSTUVWXYZ" "abcdefghijklmnopqrstuvwxyz") (lower s)

-- What follows a prefix.
unfoldable pub after_prefix : String → String → Option String
after_prefix String.[] s = some s
after_prefix (String.◌∷◌ c p) String.[] = none
after_prefix (String.◌∷◌ c p) (String.◌∷◌ d s) = if is_char c d then after_prefix p s else none

abbrev pub starts_with : String → String → Bool
starts_with s prefix = is_some (after_prefix prefix s)

abbrev pub chars : String → ℕ
chars String.[] = 0
chars (String.◌∷◌ c s) = suc (chars s)

-- `skip` characters are already replaced.
unfoldable pub replace_from : String → String → ℕ → String → String
replace_from old new skip String.[] = String.[]
replace_from old new (suc skip) (String.◌∷◌ c s) = replace_from old new skip s
replace_from old new zero (String.◌∷◌ c s) =
    let replaced = replace_from old new (chars old - 1) s in
    let kept = replace_from old new zero s in
    if starts_with (String.◌∷◌ c s) old then cat new replaced else String.◌∷◌ c kept

-- `text.replace(old, new)` where `old` is not empty.
unfoldable pub replace : String → String → String → String
unfolding replace_from
replace old new s = replace_from old new 0 s
