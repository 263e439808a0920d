-- ===== src/Worker/Tripwire/Verdict.antt =====
-- services/tripwire.py: what `classify` finds, as a set and as an order.
use text.Mathlib.TextEquality.{Char-path}
use Prim.Native.Char.{code}
use moomacha.Base.{
  String, ◌≡◌, refl, sym, ap, ◌↔◌, ◌⊎◌, inl, inr, Bool, true, false, not, ◌&&◌, ◌||◌, List, [], ◌∷◌,
  arith, str_eq, eq_iff, ltb, Bool-cases, if_ind, All,
}
use moomacha.Base.Text.{text_lt}
use moomacha.ToolAccess.{contains}
use moomacha.Worker.Tripwire.{insert_name, offending, tripped}

contains-insert_name :
    (z x : String) (ys : List String)
    → contains z (insert_name x ys) ≡ (str_eq x z || contains z ys)
unfolding contains insert_name
contains-insert_name z x [] = refl
contains-insert_name z x (y ∷ ys) =
    ground (arith, eq_iff y x, eq_iff x z, eq_iff y z, contains-insert_name z x ys)

contains-offending :
    (z : String) (allowed baseline : List String)
    → contains z (offending allowed baseline) ≡ (contains z allowed && not (contains z baseline))
unfolding contains offending
contains-offending z [] baseline = refl
contains-offending z (tool ∷ allowed) baseline = elim (Bool-cases (str_eq tool z)) [
  | inl here ↦
      let same = ap (λ x. contains x baseline) ((eq_iff tool z).0 here) in
      ground (
        arith,
        contains-offending z allowed baseline,
        contains-insert_name z tool (offending allowed baseline),
      )
  | inr other ↦ ground (
    arith,
    contains-offending z allowed baseline,
    contains-insert_name z tool (offending allowed baseline),
  )
]

-- Each name comes before the next one, so none comes twice.
abbrev pub IsAscending : List String → Type 0
IsAscending [] = Unit
IsAscending (x ∷ []) = Unit
IsAscending (x ∷ y ∷ rest) = (text_lt x y ≡ true) × IsAscending (y ∷ rest)

text_lt_total : (s t : String) → text_lt s t ≡ false → (s ≡ t) ⊎ (text_lt t s ≡ true)
unfolding text_lt
text_lt_total String.[] String.[] h = inl refl
text_lt_total (String.◌∷◌ c s) String.[] h = inr refl
text_lt_total String.[] (String.◌∷◌ d t) h = absurd (cc h)
text_lt_total (String.◌∷◌ c s) (String.◌∷◌ d t) h = elim (Bool-cases (ltb (code c) (code d))) [
  | inl below ↦ absurd (ground (arith, below, h))
  | inr not_below ↦ elim (Bool-cases (ltb (code d) (code c))) [
    | inl above ↦ inr (rw (above) refl)
    | inr not_above ↦
        let same : c ≡ d = Char-path c d (ground (arith, not_below, not_above)) in
        elim (text_lt_total s t (ground (arith, not_below, not_above, h))) [
          | inl e ↦ inl (rw (same, e) refl)
          | inr m ↦ inr (ground (arith, not_below, not_above, m))
        ]
  ]
]

-- A name that is neither the other nor before it comes after it.
after : (x y : String) → str_eq y x ≡ false → text_lt x y ≡ false → text_lt y x ≡ true
after x y other not_before = elim (text_lt_total x y not_before) [
  | inl e ↦ absurd (cc (other, (eq_iff y x).1 (sym e)))
  | inr m ↦ m
]

behind_first :
    (x y z : String) (rest : List String)
    → text_lt y x ≡ true
    → text_lt y z ≡ true
    → IsAscending (insert_name x (z ∷ rest))
    → IsAscending (y ∷ insert_name x (z ∷ rest))
unfolding insert_name
behind_first x y z rest yx yz =
    if_ind (λ l. IsAscending l → IsAscending (y ∷ l)) (str_eq z x) (λ is h. (yz, h))
      (λ isnt.
        if_ind (λ l. IsAscending l → IsAscending (y ∷ l)) (text_lt x z) (λ lt h. (yx, h))
          (λ ge h. (yz, h)))

insert_name-IsAscending :
    (x : String) (ys : List String) → IsAscending ys → IsAscending (insert_name x ys)
unfolding insert_name
insert_name-IsAscending x [] h = tt
insert_name-IsAscending x (y ∷ []) h =
    if_ind IsAscending (str_eq y x) (λ is. tt)
      (λ isnt. if_ind IsAscending (text_lt x y) (λ lt. (lt, tt)) (λ ge. (after x y isnt ge, tt)))
insert_name-IsAscending x (y ∷ z ∷ rest) h =
    if_ind IsAscending (str_eq y x) (λ is. h)
      (λ isnt.
        if_ind IsAscending (text_lt x y) (λ lt. (lt, h))
          (λ ge.
            behind_first x y z rest (after x y isnt ge) h.0
              (insert_name-IsAscending x (z ∷ rest) h.1)))

offending-IsAscending : (allowed baseline : List String) → IsAscending (offending allowed baseline)
unfolding offending
offending-IsAscending [] baseline = tt
offending-IsAscending (tool ∷ allowed) baseline =
    if_ind IsAscending (contains tool baseline) (λ fine. offending-IsAscending allowed baseline)
      (λ extra. insert_name-IsAscending tool _ (offending-IsAscending allowed baseline))

abbrev filled : List String → Bool
filled [] = false
filled (_ ∷ _) = true

filled-insert_name : (x : String) (ys : List String) → filled (insert_name x ys) ≡ true
unfolding insert_name
filled-insert_name x [] = refl
filled-insert_name x (y ∷ ys) =
    if_ind (λ l. filled l ≡ true) (str_eq y x) (λ is. refl)
      (λ isnt. if_ind (λ l. filled l ≡ true) (text_lt x y) (λ lt. refl) (λ ge. refl))

tripped-filled :
    (allowed baseline : List String)
    → tripped allowed baseline ≡ filled (offending allowed baseline)
unfolding tripped
tripped-filled allowed baseline = go (offending allowed baseline)
  where
    go : (l : List String) → (elim l [ [] ↦ false | _ ∷ _ ↦ true ]) ≡ filled l
    go [] = refl
    go (x ∷ xs) = refl

filled_iff :
    (allowed baseline : List String)
    → filled (offending allowed baseline) ≡ false
      ↔ All (λ tool. contains tool baseline ≡ true) allowed
unfolding offending
filled_iff [] baseline = (λ h. tt, λ h. refl)
filled_iff (tool ∷ allowed) baseline =
    if_ind
      (λ l.
        filled l ≡ false
        ↔ ((contains tool baseline ≡ true) × All (λ t. contains t baseline ≡ true) allowed))
      (contains tool baseline)
      (λ fine.
        (λ h. (fine, (filled_iff allowed baseline).0 h), λ h. (filled_iff allowed baseline).1 h.1))
      (λ extra. (
        λ h. absurd (cc (filled-insert_name tool (offending allowed baseline), h)),
        λ h. absurd (cc (extra, h.0)),
      ))

-- For any tools and any baseline: the offending tools are just the tools that are not in the
-- baseline, in ascending order of their code points and each once; and the verdict is not tripped
-- just if every tool is in the baseline.
pub classify_lem :
    (allowed baseline : List String)
    → ((tool : String)
        → contains tool (offending allowed baseline) ≡ true
          ↔ ((contains tool allowed ≡ true) × (contains tool baseline ≡ false)))
      × IsAscending (offending allowed baseline)
      × (tripped allowed baseline ≡ false ↔ All (λ tool. contains tool baseline ≡ true) allowed)
classify_lem allowed baseline = (
  λ tool. ground (arith, contains-offending tool allowed baseline),
  offending-IsAscending allowed baseline,
  rw (tripped-filled allowed baseline) (filled_iff allowed baseline),
)
