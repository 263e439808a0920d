-- ===== src/Memory/Names.antt =====
-- agent_memory.py: the names that the service takes, which have letters, digits and hyphens only.
use Prim.Native.Char.{code}
use moomacha.Base.{
  ℕ, String, ◌≡◌, refl, Bool, true, false, ◌&&◌, ◌||◌, str_eq, leb, ◌==◌, if◌then◌else◌, if_ind,
  All,
}
use moomacha.Base.Text.{codes}

abbrev pub is_word : ℕ → Bool
is_word c = leb 48 c && leb c 57 || leb 65 c && leb c 90 || leb 97 c && leb c 122 || c == 45

-- `re.sub("[^...]+", "-", s)` for the class of the characters that stay: the flag tells that the character before was replaced.
unfoldable pub squash : (ℕ → Bool) → Bool → String → String
squash keeps replaced String.[] = ""
squash keeps replaced (String.◌∷◌ c s) =
    let kept = squash keeps false s in
    let dropped = squash keeps true s in
    if keeps (code c)
    then String.◌∷◌ c kept
    else if replaced
    then dropped
    else String.◌∷◌ "-" dropped

unfoldable pub drop_first : String → String
drop_first String.[] = ""
drop_first (String.◌∷◌ c s) =
    let rest = drop_first s in if code c == 45 then rest else String.◌∷◌ c s

unfoldable pub drop_last : String → String
drop_last String.[] = ""
drop_last (String.◌∷◌ c s) =
    let rest = drop_last s in if code c == 45 && str_eq rest "" then "" else String.◌∷◌ c rest

-- `.strip("-") or otherwise`
unfoldable pub slug : String → String → String
slug otherwise s =
    let name = drop_last (drop_first (squash is_word false s)) in
    if str_eq name "" then otherwise else name

-- Each character is one of a name.
abbrev pub IsName : String → Type 0
IsName s = All (λ c. is_word c ≡ true) (codes s)

squash-IsName : (replaced : Bool) (s : String) → IsName (squash is_word replaced s)
unfolding squash
squash-IsName replaced String.[] = tt
squash-IsName replaced (String.◌∷◌ c s) =
    if_ind IsName (is_word (code c)) (λ fine. (fine, squash-IsName false s))
      (λ bad.
        if_ind IsName replaced (λ again. squash-IsName true s)
          (λ first. (refl, squash-IsName true s)))

drop_first-IsName : (s : String) → IsName s → IsName (drop_first s)
unfolding drop_first
drop_first-IsName String.[] h = tt
drop_first-IsName (String.◌∷◌ c s) h =
    if_ind IsName (code c == 45) (λ dash. drop_first-IsName s h.1) (λ other. h)

drop_last-IsName : (s : String) → IsName s → IsName (drop_last s)
unfolding drop_last
drop_last-IsName String.[] h = tt
drop_last-IsName (String.◌∷◌ c s) h =
    if_ind IsName (code c == 45 && str_eq (drop_last s) "") (λ last. tt)
      (λ other. (h.0, drop_last-IsName s h.1))

pub slug-IsName :
    (otherwise s : String)
    → IsName otherwise
    → str_eq otherwise "" ≡ false
    → IsName (slug otherwise s) × (str_eq (slug otherwise s) "" ≡ false)
unfolding slug
slug-IsName otherwise s fine some_name =
    if_ind (λ n. IsName n × (str_eq n "" ≡ false))
      (str_eq (drop_last (drop_first (squash is_word false s))) "") (λ empty. (fine, some_name))
      (λ filled. (drop_last-IsName _ (drop_first-IsName _ (squash-IsName false s)), filled))
