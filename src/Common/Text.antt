-- ===== src/Common/Text.antt =====
-- What the program uses of Go's package strings, on texts as sequences of code points.
use Prim.Native.Char.{Char, code}
use Prim.Native.String.{String}
use mathlib.Core.Path.{◌≡◌, refl, ap, ◌∙◌}
use mathlib.Core.Bool.{Bool, true, false, ◌&&◌, ◌||◌}
use mathlib.Core.Logic.{◌≢◌, inl, inr}
use mathlib.Core.List.{List, [], ◌∷◌}
use text.Mathlib.Text.{◌==◌, starts_with}
use text.Mathlib.TextEquality.{eq_iff}
use native.Mathlib.Omega.{arith}
use text.Mathlib.TextPositions.{eq_refl}
use legator.Common.Tests.{leb, ◌==◌ as nat_eq, if◌then◌else◌, Bool-cases}

-- unicode.IsSpace
unfoldable pub is_space : Char → Bool
is_space c =
    let n = code c in
    leb 9 n && leb n 13
    || nat_eq n 32
    || nat_eq n 0x85
    || nat_eq n 0xa0
    || nat_eq n 0x1680
    || leb 0x2000 n && leb n 0x200a
    || nat_eq n 0x2028
    || nat_eq n 0x2029
    || nat_eq n 0x202f
    || nat_eq n 0x205f
    || nat_eq n 0x3000

trim_left : String → String
trim_left String.[] = String.[]
trim_left (String.◌∷◌ c s) = if is_space c then trim_left s else String.◌∷◌ c s

-- A character in front of a text whose end is trimmed.
before : Char → String → String
before c String.[] = if is_space c then String.[] else String.◌∷◌ c String.[]
before c (String.◌∷◌ d s) = String.◌∷◌ c (String.◌∷◌ d s)

trim_right : String → String
unfolding before
trim_right String.[] = String.[]
trim_right (String.◌∷◌ c s) = before c (trim_right s)

-- strings.TrimSpace
unfoldable pub trim_space : String → String
unfolding trim_left trim_right is_space
trim_space s = trim_right (trim_left s)

before-trim : (c : Char) (t : String) → trim_right t ≡ t → trim_right (before c t) ≡ before c t
unfolding trim_right
before-trim c String.[] h = elim (Bool-cases (is_space c)) [ inl e ↦ rw e | inr e ↦ rw e (rw e) ]
before-trim c (String.◌∷◌ d s) h = ap (before c) h

trim_right_idem : (s : String) → trim_right (trim_right s) ≡ trim_right s
unfolding trim_right
trim_right_idem String.[] = refl
trim_right_idem (String.◌∷◌ c s) = before-trim c (trim_right s) (trim_right_idem s)

-- A text that begins with no space still does so when its end is trimmed.
trim_left-before :
    (c : Char) (t : String) → is_space c ≡ false → trim_left (before c t) ≡ before c t
unfolding trim_left before
trim_left-before c String.[] h = rw h (rw h)
trim_left-before c (String.◌∷◌ d s) h = rw h

trim_left-trim_right :
    (s : String) → trim_left (trim_right (trim_left s)) ≡ trim_right (trim_left s)
unfolding trim_left trim_right
trim_left-trim_right String.[] = refl
trim_left-trim_right (String.◌∷◌ c s) = elim (Bool-cases (is_space c)) [
  | inl e ↦ rw e (trim_left-trim_right s)
  | inr e ↦ rw e (trim_left-before c (trim_right s) e)
]

pub trim_space_idem : (s : String) → trim_space (trim_space s) ≡ trim_space s
unfolding trim_space
trim_space_idem s = ap trim_right (trim_left-trim_right s) ∙ trim_right_idem (trim_left s)

-- A text with each character mapped; strings.ToLower with the case map as argument.
unfoldable pub map_chars : (Char → Char) → String → String
map_chars f String.[] = String.[]
map_chars f (String.◌∷◌ c s) = String.◌∷◌ (f c) (map_chars f s)

-- strings.EqualFold: equal once each character is replaced by the representative of its case class.
unfoldable pub equal_fold : (Char → Char) → String → String → Bool
unfolding map_chars
equal_fold fold s t = map_chars fold s == map_chars fold t

pub equal_fold_refl : (fold : Char → Char) (s : String) → equal_fold fold s s ≡ true
unfolding equal_fold
equal_fold_refl fold s = eq_refl (map_chars fold s)

-- strings.Join with a space.
unfoldable pub join_space : List String → String
join_space [] = String.[]
join_space (s ∷ []) = s
join_space (s ∷ t ∷ r) = Prim.Native.String.◌++◌ s (String.◌∷◌ " " (join_space (t ∷ r)))

-- A text has one of the prefixes.
unfoldable pub has_prefix_in : String → List String → Bool
has_prefix_in s [] = false
has_prefix_in s (p ∷ ps) = if starts_with s p then true else has_prefix_in s ps

pub ne_of_str_eq : (s t : String) → (s == t) ≡ false → s ≢ t
ne_of_str_eq s t h e = ground (arith, eq_iff s t)
