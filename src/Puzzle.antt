-- ===== src/Puzzle.antt =====
-- internal/puzzle/derive.go: a row of the puzzle dump, and what is derived from it. The parsers of
-- strconv are parameters. The three phases are a type.
pub mod Tags
pub mod Parse
pub mod Line
pub mod Reader
use blundernet.Base.{
  ℕ, suc, ◌+◌, ◌-◌, ◌*◌, ◌/◌, ◌≡◌, Text, codes, text_eq, fields, String, length, get_elem?, Bool,
  true, false, not, ◌&&◌, ◌||◌, List, [], ◌∷◌, drop, Option, none, some, ltb, leb, ◌==◌,
  if◌then◌else◌,
}
use blundernet.Base.Int.{ℤ, pos, negsuc, ◌-ℤ◌, ◌*ℤ◌}
use blundernet.Chess.{Color, white, black}
use blundernet.Puzzle.Tags.{normalize_tags}

pub data Phase : Type 0 where
  opening middlegame endgame : Phase

pub record Puzzle (F : Type 0) : Type 0 where
  pub id : Text
  pub fen : Text
  pub moves : List Text
  pub rating : F
  pub rating_dev : F
  pub popularity : ℤ
  pub nb_plays : ℤ
  pub themes : List Text
  pub game_url : Text
  pub opening_tags : List Text
  pub solution_plies : ℕ
  pub phase : Phase

pub data ParseError : Type 0 where
  too_few_columns empty_id bad_rating bad_deviation bad_popularity bad_plays too_few_moves :
      ParseError

pub data Parsed (F : Type 0) : Type 0 where
  parsed : Puzzle F → Parsed F
  rejected : ParseError → Parsed F

abbrev pub header : List Text
header =
    codes "PuzzleId"
    ∷ codes "FEN"
    ∷ codes "Moves"
    ∷ codes "Rating"
    ∷ codes "RatingDeviation"
    ∷ codes "Popularity"
    ∷ codes "NbPlays"
    ∷ codes "Themes"
    ∷ codes "GameUrl"
    ∷ codes "OpeningTags"
    ∷ []

-- CheckHeader: the columns start with the header's.
unfoldable pub starts_with : List Text → List Text → Bool
starts_with [] cols = true
starts_with (want ∷ wants) [] = false
starts_with (want ∷ wants) (col ∷ cols) = text_eq col want && starts_with wants cols

unfoldable pub check_header : List Text → Bool
check_header cols = starts_with header cols

abbrev pub phase_tag : Text → Option Phase
phase_tag t =
    if text_eq t (codes "opening")
    then some opening
    else if text_eq t (codes "middlegame")
    then some middlegame
    else if text_eq t (codes "endgame")
    then some endgame
    else none

-- q r b n Q R B N
abbrev pub is_officer : ℕ → Bool
is_officer c =
    (c == 113)
    || (c == 114)
    || (c == 98)
    || (c == 110)
    || (c == 81)
    || (c == 82)
    || (c == 66)
    || (c == 78)

unfoldable pub count_officers : Text → ℕ
count_officers [] = 0
count_officers (c ∷ cs) = let rest = count_officers cs in if is_officer c then suc rest else rest

-- strings.Cut at the first space: what stands before, and what stands behind.
unfoldable pub before_space : Text → Text
before_space [] = []
before_space (c ∷ cs) = if c == 32 then [] else c ∷ before_space cs

unfoldable pub after_space : Text → Text
after_space [] = []
after_space (c ∷ cs) = if c == 32 then cs else after_space cs

abbrev pub at_most_twelve : Option ℤ → Bool
at_most_twelve none = false
at_most_twelve (some (negsuc n)) = true
at_most_twelve (some (pos n)) = leb n 12

abbrev pub column : ℕ → List Text → Text
column i rec = elim (get_elem? rec i) [ none ↦ [] | some c ↦ c ]

module _ (atoi : Text → Option ℤ) where
  -- The fifth field behind the board is the number of the move.
  abbrev pub is_early : List Text → Bool
  is_early fs = elim (get_elem? fs 4) [ none ↦ false | some f ↦ at_most_twelve (atoi f) ]

  unfoldable pub phase_from_fen : Text → Phase
  phase_from_fen fen =
      if leb (count_officers (before_space fen)) 6
      then endgame
      else if is_early (fields (after_space fen))
      then opening
      else middlegame

  unfoldable pub phase_of : List Text → Text → Phase
  phase_of [] fen = phase_from_fen fen
  phase_of (t ∷ ts) fen =
      let rest = phase_of ts fen in elim (phase_tag t) [ none ↦ rest | some p ↦ p ]

  module _ {F : Type 0} (parse_float : Text → Option F) where
    abbrev pub from_moves : List Text → Puzzle F → Parsed F
    from_moves moves p =
        if ltb (length moves) 2
        then rejected too_few_moves
        else parsed
            (record p { solution_plies = length moves - 1; phase = phase_of p.themes p.fen })

    abbrev pub from_plays : List Text → F → F → ℤ → Option ℤ → Parsed F
    from_plays rec rating dev popularity none = rejected bad_plays
    from_plays rec rating dev popularity (some plays) = from_moves (fields (column 2 rec)) (record {
      id = column 0 rec;
      fen = column 1 rec;
      moves = fields (column 2 rec);
      rating = rating;
      rating_dev = dev;
      popularity = popularity;
      nb_plays = plays;
      themes = normalize_tags (column 7 rec);
      game_url = column 8 rec;
      opening_tags = normalize_tags (column 9 rec);
      solution_plies = 0;
      phase = opening;
    })

    abbrev pub from_popularity : List Text → F → F → Option ℤ → Parsed F
    from_popularity rec rating dev none = rejected bad_popularity
    from_popularity rec rating dev (some popularity) =
        from_plays rec rating dev popularity (atoi (column 6 rec))

    abbrev pub from_deviation : List Text → F → Option F → Parsed F
    from_deviation rec rating none = rejected bad_deviation
    from_deviation rec rating (some dev) = from_popularity rec rating dev (atoi (column 5 rec))

    abbrev pub from_rating : List Text → Option F → Parsed F
    from_rating rec none = rejected bad_rating
    from_rating rec (some rating) = from_deviation rec rating (parse_float (column 4 rec))

    unfoldable pub parse : List Text → Parsed F
    parse rec =
        if ltb (length rec) 10
        then rejected too_few_columns
        else if text_eq (column 0 rec) []
        then rejected empty_id
        else from_rating rec (parse_float (column 3 rec))

module _ {F : Type 0} where
  unfoldable pub user_moves : Puzzle F → ℕ
  user_moves p = (p.solution_plies + 1) / 2

  unfoldable pub setup_move : Puzzle F → Text
  setup_move p = column 0 p.moves

  unfoldable pub solution : Puzzle F → List Text
  solution p = if ltb (length p.moves) 2 then [] else drop 1 p.moves

  unfoldable pub solver_color : Puzzle F → Color
  solver_color p = elim (get_elem? (fields p.fen) 1) [
    | none ↦ white
    | some f ↦ if text_eq f (codes "w") then black else white
  ]

unfoldable pub plies_for : ℤ → ℤ
plies_for moves = moves *ℤ pos 2 -ℤ pos 1
