-- ===== src/Tests/Puzzles.antt =====
-- Toy puzzles and the theorems on puzzles applied to them: a position is the number of moves played,
-- a move is one of the letters a and b, and no position is mate.
use blundernet.Base.{
  ℕ, suc, equal_fold, fields, ◌≡◌, refl, Text, codes, text_eq, length, true, false, List, [], ◌∷◌,
  Option, none, some, if◌then◌else◌,
}
use blundernet.Base.Int.{ℤ, pos}
use blundernet.Puzzle.{
  Puzzle, middlegame, endgame, parsed, header, check_header, starts_with, parse, phase_of,
  phase_from_fen, count_officers, before_space, after_space, solution, user_moves,
}
use blundernet.Puzzle.Tags.{dedup, sort, insert, normalize_tags}
use blundernet.Puzzle.Reader.{Row, line, broken, fresh, new_reader, drain}
use blundernet.Puzzle.Reader.Drain.{Read, drain-new_reader}
use blundernet.Puzzle.Line.{Positions, find_move, play}
use blundernet.Puzzle.Line.Play.{Playable, solve, solve-user_moves}
use blundernet.Puzzle.Line.Earned.{Earned}

abbrev pub board : Positions
board = record {
  Position = ℕ;
  Move = ℕ;
  parse_fen = λ fen. if text_eq fen [] then none else some 0;
  valid_moves = λ p. b'a' ∷ b'b' ∷ [];
  encode = λ p m. m ∷ [];
  update = λ p m. suc p;
  is_mate = λ p. false;
  show = λ p. p ∷ [];
}

abbrev pub fork : Puzzle ℕ
fork = record {
  id = codes "p1";
  fen = codes "start";
  moves = codes "a" ∷ codes "b" ∷ codes "a" ∷ codes "b" ∷ [];
  rating = 1500;
  rating_dev = 80;
  popularity = pos 90;
  nb_plays = pos 10;
  themes = codes "fork" ∷ [];
  game_url = [];
  opening_tags = [];
  solution_plies = 3;
  phase = middlegame;
}

pub fork-Playable : Playable board fork
unfolding play find_move equal_fold
fork-Playable = record { begin = 0; end = 4; fen = refl; plays = refl }

fork_plies : fork.solution_plies ≡ length (solution fork)
unfolding solution
fork_plies = refl

solve-user_moves_example : solve board fork (user_moves fork) 0 ≡ true
solve-user_moves_example = solve-user_moves board fork fork-Playable fork_plies refl

-- Toy parsers: a number is as large as its text is long.
abbrev atoi : Text → Option ℤ
atoi t = some (pos (length t))

abbrev parse_float : Text → Option ℕ
parse_float t = some (length t)

abbrev row : List Text
row =
    codes "p1"
    ∷ codes "start"
    ∷ codes "a b a b"
    ∷ codes "xxx"
    ∷ codes "xx"
    ∷ codes "x"
    ∷ codes "x"
    ∷ codes "fork"
    ∷ []
    ∷ []
    ∷ []

abbrev row_puzzle : Puzzle ℕ
row_puzzle = record fork {
  rating = 3;
  rating_dev = 2;
  popularity = pos 1;
  nb_plays = pos 1;
  themes = codes "fork" ∷ [];
  phase = endgame;
}

row_parses : parse atoi parse_float row ≡ parsed row_puzzle
unfolding parse fields normalize_tags phase_of phase_from_fen count_officers before_space
    after_space dedup sort insert
row_parses = refl

abbrev file : List Row
file = line header ∷ line row ∷ line [] ∷ line row ∷ broken ∷ []

abbrev rows : List Row
rows = line row ∷ line [] ∷ line row ∷ broken ∷ []

file_opens : new_reader {F = ℕ} file ≡ some (rows, fresh)
unfolding new_reader check_header starts_with
file_opens = refl

drain-new_reader_example :
    (fresh {F = ℕ} ≡ fresh)
    × Read atoi parse_float
        (pos 0)
        none
        rows
        fresh
        (drain atoi parse_float (pos 0) none 5 rows fresh)
drain-new_reader_example = drain-new_reader atoi parse_float (pos 0) none file rows fresh file_opens
