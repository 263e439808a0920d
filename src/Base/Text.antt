-- ===== src/Base/Text.antt =====
-- Python's operations on `str`: lengths and slices count characters; `str(n)` of an int that is not
-- negative.
use Prim.Native.Nat.{ℕ, zero, suc, ◌+◌, ◌/◌, ◌%◌}
use Prim.Native.Char.{Char, code}
use Prim.Native.String.{String, ◌++◌ as ◌<>◌}
pub use Prim.Native.String.{count as chars}
use mathlib.Core.Bool.{Bool, true, false, ◌&&◌, ◌||◌}
use mathlib.Core.Option.{Option, none, some}
use mathlib.Core.Path.{◌≡◌, refl}
use mathlib.Core.List.{List, [], ◌∷◌}
use text.Mathlib.Text.{◌==◌ as str_eq}
use moomacha.Base.{ltb, leb, ◌==◌, if◌then◌else◌}

-- `s[:n]`
unfoldable pub slice_to : ℕ → String → String
slice_to zero s = ""
slice_to (suc n) String.[] = ""
slice_to (suc n) (String.◌∷◌ c s) = String.◌∷◌ c (slice_to n s)

digit : ℕ → String
digit n =
    if n == 0
    then "0"
    else if n == 1
    then "1"
    else if n == 2
    then "2"
    else if n == 3
    then "3"
    else if n == 4
    then "4"
    else if n == 5
    then "5"
    else if n == 6
    then "6"
    else if n == 7
    then "7"
    else if n == 8
    then "8"
    else "9"

digits : ℕ → ℕ → String
unfolding digit
digits zero n = digit n
digits (suc fuel) n =
    let more = digits fuel (n / 10) <> digit (n % 10) in if ltb n 10 then digit n else more

-- A number has fewer digits than its value and one.
unfoldable pub show : ℕ → String
unfolding digits
show n = digits n n

-- The code points.
abbrev pub codes : String → List ℕ
codes String.[] = []
codes (String.◌∷◌ c s) = code c ∷ codes s

-- `sep.join(items)`
unfoldable pub join : String → List String → String
join sep [] = ""
join sep (s ∷ []) = s
join sep (s ∷ t ∷ rest) = s <> (sep <> join sep (t ∷ rest))

-- The rest of a text behind a prefix, if it starts with it.
unfoldable pub behind : String → String → Option String
behind String.[] s = some s
behind (String.◌∷◌ p ps) String.[] = none
behind (String.◌∷◌ p ps) (String.◌∷◌ c s) =
    let rest = behind ps s in if code p == code c then rest else none

-- `needle in s`
unfoldable pub has_text : String → String → Bool
has_text needle String.[] = str_eq needle ""
has_text needle (String.◌∷◌ c s) =
    (elim (behind needle (String.◌∷◌ c s)) [ none ↦ false | some _ ↦ true ]) || has_text needle s

is_blank : Char → Bool
is_blank c = code c == 32 || leb 9 (code c) && leb (code c) 13

lstrip : String → String
unfolding is_blank
lstrip String.[] = ""
lstrip (String.◌∷◌ c s) = let rest = lstrip s in if is_blank c then rest else String.◌∷◌ c s

rstrip : String → String
unfolding is_blank
rstrip String.[] = ""
rstrip (String.◌∷◌ c s) =
    let rest = rstrip s in if is_blank c && str_eq rest "" then "" else String.◌∷◌ c rest

-- `s.strip()`, for the white space of ASCII.
unfoldable pub strip : String → String
unfolding lstrip rstrip
strip s = rstrip (lstrip s)

-- `len(s.encode("utf-8"))`
unfoldable pub utf8_length : String → ℕ
utf8_length String.[] = 0
utf8_length (String.◌∷◌ c s) =
    (if ltb (code c) 128
      then 1
      else if ltb (code c) 2048
      then 2
      else if ltb (code c) 65536
      then 3
      else 4)
    + utf8_length s

strip_test : strip " a b\n" ≡ "a b"
unfolding strip
strip_test = refl

show_test : show 1024 ≡ "1024"
unfolding show
show_test = refl

-- The order of Python's strings, by code points.
unfoldable pub text_lt : String → String → Bool
text_lt s String.[] = false
text_lt String.[] (String.◌∷◌ d t) = true
text_lt (String.◌∷◌ c s) (String.◌∷◌ d t) =
    let rest = text_lt s t in
    if ltb (code c) (code d) then true else if ltb (code d) (code c) then false else rest
