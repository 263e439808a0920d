-- ===== src/Jobs/Recipients.antt =====
-- control-plane/src/control_plane/services/job_source.py: a schedule's channel `direct:<id>,...`.
use Prim.Native.Nat.{◌*◌, ◌-◌}
use mathlib.Core.List.{reverse}
use moomacha.Base.{
  ℕ, ◌+◌, String, Bool, ◌&&◌, ◌||◌, Option, none, some, List, [], ◌∷◌, leb, ◌==◌, if◌then◌else◌,
}
use moomacha.Base.Text.{codes, behind}
use moomacha.Base.Results.{◌>>=◌, Result, ok, raised}

-- `int(x)` of the digits in `x`, with white space around them. A sign or an underscore, which Python
-- reads too, counts as an error here.
read_int : ℕ → List ℕ → Option ℕ
read_int acc [] = some acc
read_int acc (c ∷ cs) =
    let rest = read_int (acc * 10 + (c - b'0')) cs in
    if leb b'0' c && leb c b'9' then rest else none

is_space : ℕ → Bool
is_space c = c == 32 || leb 9 c && leb c 13

drop_space : List ℕ → List ℕ
unfolding is_space
drop_space [] = []
drop_space (c ∷ cs) = let rest = drop_space cs in if is_space c then rest else c ∷ cs

-- `x.strip()`
strip : List ℕ → List ℕ
unfolding drop_space
strip x = reverse (drop_space (reverse (drop_space x)))

onto : ℕ → List (List ℕ) → List (List ℕ)
onto c [] = (c ∷ []) ∷ []
onto c (x ∷ xs) = (c ∷ x) ∷ xs

-- `text.split(",")`
split_commas : List ℕ → List (List ℕ)
unfolding onto
split_commas [] = [] ∷ []
split_commas (c ∷ cs) = let rest = split_commas cs in if c == b',' then [] ∷ rest else onto c rest

recipient : List ℕ → Result String ℕ
unfolding read_int
recipient [] = raised "invalid literal for int()"
recipient (c ∷ cs) = elim (read_int 0 (c ∷ cs)) [
  | none ↦ raised "invalid literal for int()"
  | some n ↦ ok n
]

recipients_of : List (List ℕ) → Result String (List ℕ)
unfolding strip recipient
recipients_of [] = ok []
recipients_of (x ∷ xs) = elim (strip x) [
  | [] ↦ recipients_of xs
  | c ∷ cs ↦ recipient (c ∷ cs) >>= λ i. recipients_of xs >>= λ is. ok (i ∷ is)
]

-- `direct:<id>[,<id>...]`: the recipients, or none for a stream.
pub direct_recipients : String → Result String (Option (List ℕ))
unfolding recipients_of split_commas
direct_recipients channel = elim (behind "direct:" channel) [
  | none ↦ ok none
  | some rest ↦ recipients_of (split_commas (codes rest)) >>= λ is. ok (some is)
]
