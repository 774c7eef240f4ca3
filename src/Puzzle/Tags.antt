-- ===== src/Puzzle/Tags.antt =====
-- normalizeTags of internal/puzzle/derive.go: the tags of a list once each, in order. Go's order of
-- strings by bytes is the order by code points.
use blundernet.Base.{
  ℕ, suc, ◌≡◌, refl, ◌∙◌, subst, Text, text_eq, text_eq→eq, fields, Bool, true, false, ◌&&◌, ◌||◌,
  List, [], ◌∷◌, ltb, ◌==◌, arith, Bool-cases, inl, inr, if◌then◌else◌,
}

unfoldable pub text_le : Text → Text → Bool
text_le [] b = true
text_le (x ∷ a) [] = false
text_le (x ∷ a) (y ∷ b) = ltb x y || (x == y) && text_le a b

abbrev pub holds : Text → List Text → Bool
holds t [] = false
holds t (x ∷ xs) = text_eq x t || holds t xs

-- The loop with the map `seen`.
unfoldable pub dedup : List Text → List Text → List Text
dedup seen [] = []
dedup seen (f ∷ fs) =
    let rest = dedup seen fs in
    let more = dedup (f ∷ seen) fs in if holds f seen then rest else f ∷ more

unfoldable pub insert : Text → List Text → List Text
insert t [] = t ∷ []
insert t (x ∷ xs) = let rest = insert t xs in if text_le t x then t ∷ x ∷ xs else x ∷ rest

-- sort.Strings
unfoldable pub sort : List Text → List Text
sort [] = []
sort (t ∷ ts) = insert t (sort ts)

unfoldable pub normalize_tags : Text → List Text
normalize_tags s = sort (dedup [] (fields s))

abbrev pub count : Text → List Text → ℕ
count t [] = 0
count t (x ∷ xs) = if text_eq x t then suc (count t xs) else count t xs

pub data IsSorted : List Text → Type 0 where
  none_left : IsSorted []
  one_left : (t : Text) → IsSorted (t ∷ [])
  in_order :
      (s t : Text) (ts : List Text) → text_le s t ≡ true → IsSorted (t ∷ ts) → IsSorted (s ∷ t ∷ ts)

text_le_total : (a b : Text) → text_le a b ≡ false → text_le b a ≡ true
unfolding text_le
text_le_total [] b h = cc
text_le_total (x ∷ a) [] h = refl
text_le_total (x ∷ a) (y ∷ b) h = ground (arith, text_le_total a b)

-- What stands behind `x` after an insertion is `t` or `y`.
ordered_before :
    (x t y : Text) (ys : List Text)
    → text_le x y ≡ true
    → text_le x t ≡ true
    → IsSorted (y ∷ ys)
    → IsSorted (insert t (y ∷ ys))
    → IsSorted (x ∷ insert t (y ∷ ys))
unfolding insert
ordered_before x t y ys xy xt s i = elim (Bool-cases (text_le t y)) [
  | inl le ↦ rw le (in_order x t (y ∷ ys) xt (in_order t y ys le s))
  | inr gt ↦ rw gt (
      in_order x y (insert t ys) xy
        (subst (λ b. IsSorted (if b then t ∷ y ∷ ys else y ∷ insert t ys)) gt i))
]

insert-IsSorted : (t : Text) (xs : List Text) → IsSorted xs → IsSorted (insert t xs)
unfolding insert
insert-IsSorted t [] s = one_left t
insert-IsSorted t (x ∷ []) s = elim (Bool-cases (text_le t x)) [
  | inl le ↦ rw le (in_order t x [] le s)
  | inr gt ↦ rw gt (in_order x t [] (text_le_total t x gt) (one_left t))
]
insert-IsSorted t (x ∷ y ∷ ys) (in_order _ _ _ xy s) = elim (Bool-cases (text_le t x)) [
  | inl le ↦ rw le (in_order t x (y ∷ ys) le (in_order x y ys xy s))
  | inr gt ↦
      rw gt (ordered_before x t y ys xy (text_le_total t x gt) s (insert-IsSorted t (y ∷ ys) s))
]

count-insert : (t s : Text) (xs : List Text) → count s (insert t xs) ≡ count s (t ∷ xs)
unfolding insert
count-insert t s [] = refl
count-insert t s (x ∷ xs) = ground (arith, count-insert t s xs)

count-sort : (s : Text) (xs : List Text) → count s (sort xs) ≡ count s xs
unfolding sort
count-sort s [] = refl
count-sort s (x ∷ xs) = ground (arith, count-insert x s (sort xs), count-sort s xs)

count-dedup :
    (t : Text) (seen xs : List Text)
    → count t (dedup seen xs) ≡ (if holds t seen then 0 else if holds t xs then 1 else 0)
unfolding dedup
count-dedup t seen [] = ground arith
count-dedup t seen (x ∷ xs) =
    ground (arith, count-dedup t seen xs, count-dedup t (x ∷ seen) xs, text_eq→eq x t)

sort-IsSorted : (xs : List Text) → IsSorted (sort xs)
unfolding sort
sort-IsSorted [] = none_left
sort-IsSorted (x ∷ xs) = insert-IsSorted x (sort xs) (sort-IsSorted xs)

normalize_tags-IsSorted : (s : Text) → IsSorted (normalize_tags s)
unfolding normalize_tags
normalize_tags-IsSorted s = sort-IsSorted (dedup [] (fields s))

-- The tags that normalizeTags gives are in order, and each is among them once if it is a word of
-- the text, and not at all if it is not.
pub count-normalize_tags :
    (t s : Text)
    → IsSorted (normalize_tags s)
      × (count t (normalize_tags s) ≡ (if holds t (fields s) then 1 else 0))
unfolding normalize_tags
count-normalize_tags t s = (
  sort-IsSorted (dedup [] (fields s)),
  count-sort t (dedup [] (fields s)) ∙ count-dedup t [] (fields s),
)
