-- ===== src/Tests/Reviews.antt =====
-- A game of two legal moves on a toy board, reviewed by a toy engine that likes the first.
use blundernet.Base.{
  ℕ, suc, ◌+◌, true, ◌≡◌, Text, codes, List, [], ◌∷◌, Option, none, some, refl, arith, ◌==◌,
  if◌then◌else◌,
}
use blundernet.Base.Int.{pos}
use blundernet.Chess.{white, checkmate, no_method}
use blundernet.Review.{Boards, Analysis, Move, Result, rook, blunder, mistake, good}
use blundernet.Review.Board.{find_uci, first_uci}
use blundernet.Review.Accuracy.{worst}
use blundernet.Review.Accuracy.Worst.{Compares, Picks, worst-Picks}
use blundernet.Review.Report.{reviewed, review_game, replay, analyse_all, judge_steps, report}
use blundernet.Review.Report.Told.{Told, review_game-Told}
use blundernet.Tests.Fixtures.{floats}

-- A position is the number of its moves, and the third move mates.
abbrev board : Boards
board = record {
  Position = ℕ;
  ChessMove = ℕ;
  start = 0;
  valid_moves = λ p. 0 ∷ 1 ∷ [];
  source = λ m. m;
  target = λ m. m + 8;
  uci = λ p m. if m == 0 then codes "a1a2" else codes "b1b2";
  san = λ p m. codes "R";
  update = λ p m. suc p;
  turn = λ p. white;
  status = λ p. if p == 3 then checkmate else no_method;
  piece = λ p sq. if sq == 0 then some (rook, white) else none;
  show = λ p. p ∷ [];
  parse_fen = λ t. none;
}

abbrev opinion : Analysis
opinion = record { cp = pos 30; mate = pos 0; best = codes "a1a2"; second = none }

abbrev engine : ℕ → Text → Option Analysis
engine i fen = some opinion

abbrev played : List Text
played = codes "a1a2" ∷ codes "b1b2" ∷ codes "h8h9" ∷ codes "a1a2" ∷ []

abbrev told : Result floats
told =
    report floats board
      (judge_steps floats board 0 (replay floats board 0 played) (opinion ∷ opinion ∷ opinion ∷ []))

told_reviewed : review_game floats board engine played ≡ reviewed told
unfolding review_game replay analyse_all find_uci first_uci
told_reviewed = refl

review_game-Told_example : Told floats board engine played told
review_game-Told_example = review_game-Told floats board engine played told told_reviewed

compares : Compares floats
compares = record {
  asym = λ a b h. ground (arith, h);
  cotrans = λ a b c x y z h k. ground (arith, h, k);
}

abbrev slip : Move floats
slip = record {
  ply = 1;
  san = codes "R";
  uci = codes "a1a2";
  white = true;
  judgement = mistake;
  win_before = 50;
  win_after = 35;
  better = [];
  better_san = [];
  accuracy = 50;
  fen = [];
}

abbrev slips : List (Move floats)
slips =
    slip
    ∷ record slip { judgement = blunder; win_after = 10 }
    ∷ record slip { judgement = good; win_after = 47 }
    ∷ []

worst-Picks_example : Picks floats slips (worst floats slips)
worst-Picks_example = worst-Picks floats compares slips (λ m d. ground arith)
