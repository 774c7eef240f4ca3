-- ===== src/Base/Strings.antt =====
-- Text that the program walks is a list of code points. What the source uses of Go's `strings`
-- package is modelled for ASCII: the white space of `TrimSpace` and `Fields` and the letters of
-- `ToLower` and `EqualFold` outside ASCII are not.
use Prim.Native.Char.{code}
use Prim.Native.Nat.{ℕ, ◌+◌}
use Prim.Native.String.{String}
use mathlib.Core.Path.{◌≡◌, refl}
use mathlib.Core.Bool.{Bool, true, false, ◌&&◌, ◌||◌}
use mathlib.Core.List.{List, [], ◌∷◌, map, reverse}
use native.Mathlib.Omega.{arith}
use blundernet.Base.Tests.{leb, ◌==◌, if◌then◌else◌}

abbrev pub Text : Type 0
Text = List ℕ

-- The code points of a literal.
abbrev pub codes : String → Text
codes String.[] = []
codes (String.◌∷◌ c s) = code c ∷ codes s

abbrev pub text_eq : Text → Text → Bool
text_eq [] [] = true
text_eq [] (y ∷ ys) = false
text_eq (x ∷ xs) [] = false
text_eq (x ∷ xs) (y ∷ ys) = (x == y) && text_eq xs ys

pub is_space : ℕ → Bool
is_space c = (c == 32) || (leb 9 c && leb c 13)

pub lower : ℕ → ℕ
lower c = if leb b'A' c && leb c b'Z' then c + 32 else c

-- strings.ToLower
unfoldable pub to_lower : Text → Text
unfolding lower
to_lower t = map lower t

trim_left : Text → Text
unfolding is_space
trim_left [] = []
trim_left (c ∷ t) = if is_space c then trim_left t else c ∷ t

-- strings.TrimSpace
unfoldable pub trim_space : Text → Text
unfolding trim_left
trim_space t = reverse (trim_left (reverse (trim_left t)))

-- strings.EqualFold
unfoldable pub equal_fold : Text → Text → Bool
unfolding to_lower
equal_fold a b = text_eq (to_lower a) (to_lower b)

-- strings.Fields: `word` holds the letters of the field being read, last first.
fields_from : Text → Text → List Text
unfolding is_space
fields_from [] [] = []
fields_from (c ∷ word) [] = reverse (c ∷ word) ∷ []
fields_from [] (c ∷ t) = fields_from (if is_space c then [] else c ∷ []) t
fields_from (d ∷ word) (c ∷ t) =
    let rest = fields_from [] t in
    let longer = fields_from (c ∷ d ∷ word) t in
    if is_space c then reverse (d ∷ word) ∷ rest else longer

unfoldable pub fields : Text → List Text
unfolding fields_from
fields t = fields_from [] t

pub text_eq→eq : (a b : Text) → text_eq a b ≡ true → a ≡ b
text_eq→eq [] [] h = refl
text_eq→eq [] (y ∷ ys) h = ground arith
text_eq→eq (x ∷ xs) [] h = ground arith
text_eq→eq (x ∷ xs) (y ∷ ys) h = ground (arith, text_eq→eq xs ys)

pub text_eq_refl : (a : Text) → text_eq a a ≡ true
text_eq_refl [] = refl
text_eq_refl (x ∷ xs) = ground (arith, text_eq_refl xs)

pub text_eq_sym : (a b : Text) → text_eq a b ≡ text_eq b a
text_eq_sym [] [] = refl
text_eq_sym [] (y ∷ ys) = refl
text_eq_sym (x ∷ xs) [] = refl
text_eq_sym (x ∷ xs) (y ∷ ys) = ground (arith, text_eq_sym xs ys)

lower_idem : (c : ℕ) → lower (lower c) ≡ lower c
unfolding lower
lower_idem c = ground arith

pub to_lower_idem : (t : Text) → to_lower (to_lower t) ≡ to_lower t
unfolding to_lower
to_lower_idem [] = refl
to_lower_idem (c ∷ t) = cc (lower_idem c, to_lower_idem t)

fields_words : fields (codes " e2e4  e7e5 ") ≡ codes "e2e4" ∷ codes "e7e5" ∷ []
unfolding fields
fields_words = refl

trim_both : trim_space (codes " \t E2e4 ") ≡ codes "E2e4"
unfolding trim_space
trim_both = refl
