-- ===== src/Puzzle/Parse.antt =====
-- What Parse of internal/puzzle/derive.go accepts, and what an accepted row is.
use blundernet.Base.{
  ◌-◌, ◌%◌, ◌≤◌, ◌≡◌, ◌≢◌, ◌↔◌, refl, Text, text_eq, fields, length, drop, false, List, [], ◌∷◌,
  Option, none, some, ltb, if-cases, ◌∙◌, arith, sym,
}
use blundernet.Base.Int.{ℤ, pos, ◌-ℤ◌, ◌*ℤ◌}
use blundernet.Puzzle.{
  Puzzle, Parsed, parsed, column, parse, from_rating, from_deviation, from_popularity, from_plays,
  solution, user_moves, plies_for,
}
use blundernet.Puzzle.Tags.{normalize_tags}

-- What the columns of an accepted row became.
pub record Derived {F : Type 0} (rec : List Text) (p : Puzzle F) : Type 0 where
  pub id : p.id ≡ column 0 rec
  pub moves : p.moves ≡ fields (column 2 rec)
  pub fen : p.fen ≡ column 1 rec
  pub themes : p.themes ≡ normalize_tags (column 7 rec)
  pub opening_tags : p.opening_tags ≡ normalize_tags (column 9 rec)
  pub two_moves : 2 ≤ length p.moves
  pub plies : p.solution_plies ≡ length (solution p)

module _ (atoi : Text → Option ℤ) {F : Type 0} (parse_float : Text → Option F) where
  length-drop_one : (xs : List Text) → length (drop 1 xs) ≡ length xs - 1
  length-drop_one [] = refl
  length-drop_one (x ∷ xs) = omega arith

  some_id : (t : Text) → text_eq t [] ≡ false → t ≢ []
  some_id [] h e = ground arith
  some_id (c ∷ t) h e = ground arith

  from_plays-Derived :
      (rec : List Text) (r d : F) (pop : ℤ) (plays : Option ℤ) (p : Puzzle F)
      → from_plays atoi parse_float rec r d pop plays ≡ parsed p
      → Derived rec p
  unfolding solution
  from_plays-Derived rec r d pop none p h = ground arith
  from_plays-Derived rec r d pop (some plays) p h =
      ground (arith, length-drop_one (fields (column 2 rec)))

  from_popularity-Derived :
      (rec : List Text) (r d : F) (pop : Option ℤ) (p : Puzzle F)
      → from_popularity atoi parse_float rec r d pop ≡ parsed p
      → Derived rec p
  from_popularity-Derived rec r d none p h = ground arith
  from_popularity-Derived rec r d (some pop) p h = from_plays-Derived rec r d pop _ p h

  from_deviation-Derived :
      (rec : List Text) (r : F) (d : Option F) (p : Puzzle F)
      → from_deviation atoi parse_float rec r d ≡ parsed p
      → Derived rec p
  from_deviation-Derived rec r none p h = ground arith
  from_deviation-Derived rec r (some d) p h = from_popularity-Derived rec r d _ p h

  from_rating-Derived :
      (rec : List Text) (r : Option F) (p : Puzzle F)
      → from_rating atoi parse_float rec r ≡ parsed p
      → Derived rec p
  from_rating-Derived rec none p h = ground arith
  from_rating-Derived rec (some r) p h = from_deviation-Derived rec r _ p h

  abbrev Kept : List Text → Puzzle F → Parsed F → Type 0
  Kept rec p x = x ≡ parsed p → Derived rec p × (p.id ≢ []) × (10 ≤ length rec)

  -- If Parse accepts a row, the row has ten columns or more and its id is not empty, the
  -- puzzle's id, position, moves and tags are those of its columns, it has two moves at least,
  -- and its number of plies is the length of its solution.
  pub parse-Derived :
      (rec : List Text) (p : Puzzle F)
      → parse atoi parse_float rec ≡ parsed p
      → Derived rec p × (p.id ≢ []) × (10 ≤ length rec)
  unfolding parse
  parse-Derived rec p =
      if-cases (ltb (length rec) 10) (Kept rec p) (λ _ h. ground arith)
        (λ long.
          if-cases (text_eq (column 0 rec) []) (Kept rec p) (λ _ h. ground arith)
            (λ named h. (
              from_rating-Derived rec _ p h,
              (λ empty.
                  some_id (column 0 rec) named (sym (from_rating-Derived rec _ p h).id ∙ empty)),
              ground (arith, long),
            )))

pub plies_for_lem :
    {F : Type 0} (p : Puzzle F) (n : ℤ)
    → p.solution_plies % 2 ≡ 1
    → (plies_for n ≡ pos p.solution_plies) ↔ (n ≡ pos (user_moves p))
unfolding plies_for user_moves ◌-ℤ◌ ◌*ℤ◌
plies_for_lem p n odd = ground arith
