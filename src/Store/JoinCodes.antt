-- ===== src/Store/JoinCodes.antt =====
-- NormaliseJoinCode of internal/store/classrooms.go: a join code as it is typed, and as it is stored.
use blundernet.Base.{
  ℕ, ◌-◌, ◌≡◌, refl, Text, [], ◌∷◌, Bool, not, ◌&&◌, ◌||◌, leb, ◌==◌, arith, Bool-cases, inl, inr,
  if◌then◌else◌,
}

-- strings.ToUpper, as far as the alphabet of join codes can tell: the two letters outside ASCII whose
-- capitals are in ASCII are written out.
unfoldable upper : ℕ → ℕ
upper c =
    if leb 97 c && leb c 122 then c - 32 else if c == 305 then 73 else if c == 383 then 83 else c

-- recoveryAlphabet
unfoldable in_alphabet : ℕ → Bool
in_alphabet c =
    leb 48 c && leb c 57 || leb 65 c && leb c 90 && not (c == 73 || c == 76 || c == 79 || c == 85)

pub normalise_join_code : Text → Text
normalise_join_code [] = []
normalise_join_code (c ∷ cs) =
    let rest = normalise_join_code cs in if in_alphabet (upper c) then upper c ∷ rest else rest

upper-upper : (c : ℕ) → upper (upper c) ≡ upper c
unfolding upper
upper-upper c = ground arith

-- Normalising a join code again changes nothing: what is stored is what typing it produces.
pub normalise_join_code_idempotent :
    (s : Text) → normalise_join_code (normalise_join_code s) ≡ normalise_join_code s
unfolding normalise_join_code
normalise_join_code_idempotent [] = refl
normalise_join_code_idempotent (c ∷ cs) = elim (Bool-cases (in_alphabet (upper c))) [
  | inl kept ↦ ground (arith, kept, upper-upper c, normalise_join_code_idempotent cs)
  | inr dropped ↦ ground (arith, dropped, normalise_join_code_idempotent cs)
]
