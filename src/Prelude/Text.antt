-- ===== src/Prelude/Text.antt =====
-- Python's `str`: splitting at a character, and lower case.
use Prim.Native.Nat.{ℕ, ◌+◌, ◌-◌, ◌<◌}
use Prim.Native.Char.{Char, char, code, IsScalar}
use Prim.Native.String.{String}
use mathlib.Core.Path.{◌≡◌, refl, ap, ◌∙◌}
use mathlib.Core.Bool.{Bool, true, false, not, ◌&&◌}
use mathlib.Core.List.{List, [], ◌∷◌}
use mathlib.Core.Logic.{dite, inl, inr}
use native.Mathlib.Omega.{arith}
use native.Mathlib.Decide.{dec_lt}
use py_qgis_wps.Prelude.Tests.{Bool-cases, ◌==◌, leb, if◌then◌else◌}

-- A character before the first of some texts.
abbrev cons_first : Char → List String → List String
cons_first c [] = String.◌∷◌ c String.[] ∷ []
cons_first c (w ∷ ws) = String.◌∷◌ c w ∷ ws

-- `s.split(sep)`, never empty
unfoldable pub split : Char → String → List String
split sep String.[] = String.[] ∷ []
split sep (String.◌∷◌ c s) =
    let rest = split sep s in if code c == code sep then String.[] ∷ rest else cons_first c rest

unfoldable pub append : String → String → String
append String.[] t = t
append (String.◌∷◌ c s) t = String.◌∷◌ c (append s t)

-- `sep.join(words)`
unfoldable pub join : Char → List String → String
unfolding append
join sep [] = String.[]
join sep (w ∷ []) = w
join sep (w ∷ v ∷ ws) = append w (String.◌∷◌ sep (join sep (v ∷ ws)))

-- Whether the character does not occur.
abbrev pub free : Char → String → Bool
free sep String.[] = true
free sep (String.◌∷◌ c s) = not (code c == code sep) && free sep s

pub split-free : (sep : Char) (w : String) → free sep w ≡ true → split sep w ≡ w ∷ []
unfolding split
split-free sep String.[] h = refl
split-free sep (String.◌∷◌ c w) h = ground (arith, split-free sep w)

pub split-append :
    (sep : Char) (w rest : String)
    → free sep w ≡ true
    → split sep (append w (String.◌∷◌ sep rest)) ≡ w ∷ split sep rest
unfolding split append
split-append sep String.[] rest h = ground arith
split-append sep (String.◌∷◌ c w) rest h = ground (arith, split-append sep w rest)

-- Whether the character occurs in none of the texts.
abbrev pub all_free : Char → List String → Bool
all_free sep [] = true
all_free sep (w ∷ ws) = free sep w && all_free sep ws

pub split-join :
    (sep : Char) (w : String) (ws : List String)
    → all_free sep (w ∷ ws) ≡ true
    → split sep (join sep (w ∷ ws)) ≡ w ∷ ws
unfolding join
split-join sep w [] h = split-free sep w (ground arith)
split-join sep w (v ∷ ws) h =
    split-append sep w (join sep (v ∷ ws)) (ground arith)
    ∙ ap (λ l. w ∷ l) (split-join sep v ws (ground arith))

pub lower-IsScalar : (n : ℕ) → n < 91 → IsScalar (n + 32)
lower-IsScalar n h = ground arith

lower_char : Char → Char
lower_char (char n p) =
    dite (dec_lt n 91) (λ h. if leb 65 n then char (n + 32) (lower-IsScalar n h) else char n p)
      (λ _. char n p)

-- `s.lower()` on ASCII letters; other letters stay.
unfoldable pub lower : String → String
unfolding lower_char dec_lt
lower String.[] = String.[]
lower (String.◌∷◌ c s) = String.◌∷◌ (lower_char c) (lower s)

-- `s.replace(old, new)` for single characters
unfoldable pub replace : Char → Char → String → String
replace old new String.[] = String.[]
replace old new (String.◌∷◌ c s) =
    let rest = replace old new s in
    if code c == code old then String.◌∷◌ new rest else String.◌∷◌ c rest

-- a text that is not blank, or the other one: `a or b`
unfoldable pub or_else : String → String → String
or_else String.[] b = b
or_else (String.◌∷◌ c s) b = String.◌∷◌ c s

unfoldable pub lstrip : Char → String → String
lstrip sep String.[] = String.[]
lstrip sep (String.◌∷◌ c s) =
    let rest = lstrip sep s in if code c == code sep then rest else String.◌∷◌ c s

abbrev put_unless : Char → Char → String → String
put_unless sep c String.[] = if code c == code sep then String.[] else String.◌∷◌ c String.[]
put_unless sep c (String.◌∷◌ d s) = String.◌∷◌ c (String.◌∷◌ d s)

unfoldable pub rstrip : Char → String → String
rstrip sep String.[] = String.[]
rstrip sep (String.◌∷◌ c s) = put_unless sep c (rstrip sep s)

-- `s.strip(sep)` for one character
unfoldable pub strip : Char → String → String
unfolding lstrip rstrip
strip sep s = rstrip sep (lstrip sep s)

-- `len(s)`
abbrev pub text_length : String → ℕ
text_length String.[] = 0
text_length (String.◌∷◌ c s) = text_length s + 1

pub upper-IsScalar : (n : ℕ) → n < 123 → IsScalar (n - 32)
upper-IsScalar n h = ground arith

upper_char : Char → Char
upper_char (char n p) =
    dite (dec_lt n 123) (λ h. if leb 97 n then char (n - 32) (upper-IsScalar n h) else char n p)
      (λ _. char n p)

-- `s.upper()` on ASCII letters; other letters stay.
unfoldable pub upper : String → String
unfolding upper_char dec_lt
upper String.[] = String.[]
upper (String.◌∷◌ c s) = String.◌∷◌ (upper_char c) (upper s)

-- `s.startswith(prefix)`
unfoldable pub starts_with : String → String → Bool
starts_with String.[] s = true
starts_with (String.◌∷◌ c p) String.[] = false
starts_with (String.◌∷◌ c p) (String.◌∷◌ d s) = code c == code d && starts_with p s

cons_first-all_free :
    (sep c : Char) (ws : List String)
    → not (code c == code sep) ≡ true
    → all_free sep ws ≡ true
    → all_free sep (cons_first c ws) ≡ true
cons_first-all_free sep c [] other h = ground arith
cons_first-all_free sep c (w ∷ ws) other h = ground arith

-- What lies between the separators has none.
pub all_free-split : (sep : Char) (s : String) → all_free sep (split sep s) ≡ true
unfolding split
all_free-split sep String.[] = refl
all_free-split sep (String.◌∷◌ c s) = elim (Bool-cases (code c == code sep)) [
  | inl same ↦ rw same (all_free-split sep s)
  | inr other ↦
      rw other
        (cons_first-all_free sep c (split sep s) (ground (arith, other)) (all_free-split sep s))
]
