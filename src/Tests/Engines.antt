-- ===== src/Tests/Engines.antt =====
-- Three legal moves on a toy board: a pawn that may become a queen or a knight, and a rook. A
-- position is the number of its moves, and it is mate after one.
use blundernet.Base.{
  ℕ, suc, ◌≡◌, refl, ◌<◌, ◌&&◌, true, false, Text, ◌++◌, [], ◌∷◌, Option, none, some, ltb, ◌==◌,
  if◌then◌else◌, arith,
}
use mathlib.Core.List.{Memᴰ}
use mathlib.Core.List.Memᴰ.{head, tail}
use blundernet.Chess.{white, checkmate, no_method}
use blundernet.Review.{Boards, PieceType, pawn, knight, queen, rook}
use blundernet.Engine.Encode.{Squares, encode, pieces_from, move_index, index_uci}
use blundernet.Engine.Encode.Folding.{
  Documented, ReadAs, letter, is_promotion, is_pawn, on_last_rank, is_under, index_uci-move_index,
}
use blundernet.Engine.Encode.Tensor.{SameInput, encode-SameInput}
use blundernet.Engine.Material.{best_move}
use blundernet.Engine.Material.Mates.{Plays as PlaysOf, Mating, best_move-mates}
use blundernet.Engine.Search.{Network, done}
use blundernet.Engine.Search.Run.{search}
use blundernet.Engine.Search.Settling.{Ends}
use blundernet.Engine.Search.Answer.{
  Legal, Mating as Mates, MostVisited, search-Legal, search-mates, search-MostVisited,
}
use blundernet.Tests.Fixtures.{floats}

data Try : Type 0 where
  to_queen to_knight slide : Try

abbrev from : Try → ℕ
from slide = 7
from _ = 48

abbrev to : Try → ℕ
to slide = 15
to _ = 56

abbrev becomes : Try → Option PieceType
becomes to_queen = some queen
becomes to_knight = some knight
becomes slide = none

abbrev name : ℕ → Text
name sq = sq ∷ []

abbrev read : Text → Option ℕ
read [] = none
read (n ∷ t) = some n

abbrev board : Boards
board = record {
  Position = ℕ;
  ChessMove = Try;
  start = 0;
  valid_moves = λ p. to_knight ∷ to_queen ∷ slide ∷ [];
  source = from;
  target = to;
  uci = λ p m. name (from m) ++ (name (to m) ++ letter (becomes m));
  san = λ p m. [];
  update = λ p m. suc p;
  turn = λ p. white;
  status = λ p. if p == 1 then checkmate else no_method;
  piece =
      λ p sq. if sq == 48 then some (pawn, white) else if sq == 7 then some (rook, white) else none;
  show = λ p. p ∷ [];
  parse_fen = read;
}

abbrev squares : Squares board
squares = record {
  square_name = name;
  promotion = becomes;
  can_castle = λ p c w. false;
  en_passant = λ p. none;
}

abbrev network : Network ℕ ℕ
network = record {
  Logit = ℕ;
  lowest = 0;
  above = λ a b. ltb b a;
  minus = λ a b. a;
  evaluate = λ s p. some ((λ i. i), 5);
}

on_board : (m : Try) → (from m < 64) × (to m < 64)
on_board to_queen = (omega arith, omega arith)
on_board to_knight = (omega arith, omega arith)
on_board slide = (omega arith, omega arith)

last_rank :
    (m : Try) → is_promotion (becomes m) ≡ (is_pawn (board.piece 2 (from m)) && on_last_rank (to m))
last_rank to_queen = refl
last_rank to_knight = refl
last_rank slide = refl

may_queen :
    (m : Try)
    → is_promotion (becomes m) ≡ true
    → (q : Try) × Memᴰ q (to_knight ∷ to_queen ∷ slide ∷ [])
      × (from q ≡ from m)
      × (to q ≡ to m)
      × (becomes q ≡ some queen)
may_queen to_queen p = (to_queen, tail (head refl), refl, refl, refl)
may_queen to_knight p = (to_queen, tail (head refl), refl, refl, refl)
may_queen slide p = absurd (ground (arith, p))

documented : Documented board squares 2
documented = record {
  on_board = λ m k. on_board m;
  written = λ m k. refl;
  last_rank = λ m k. last_rank m;
  may_queen = λ m k p. may_queen m p;
}

index_uci-move_index_example :
    ((q : Try) × ReadAs board squares 2 to_knight q)
    × (is_under (becomes to_knight) ≡ false → ReadAs board squares 2 to_knight to_knight)
index_uci-move_index_example = index_uci-move_index board squares 2 documented to_knight (head refl)

same_tensor : encode board squares 2 ≡ encode board squares 3
unfolding encode pieces_from
same_tensor = refl

encode-SameInput_example : SameInput board squares 2 3
encode-SameInput_example = encode-SameInput board squares 2 3 same_tensor

best_move-mates_example :
    PlaysOf board squares
      (Mating board squares 0)
      0
      (to_knight ∷ to_queen ∷ slide ∷ [])
      (best_move board squares (0 ∷ []))
best_move-mates_example =
    best_move-mates board squares (0 ∷ []) 0 slide refl (tail (tail (head refl))) refl

search-Legal_example :
    Ends board squares floats network
      (Legal board squares floats 2)
      (search board squares floats network 3 1 5 (2 ∷ []))
search-Legal_example =
    search-Legal board squares floats network 3 1 5 (2 ∷ []) 2 refl (omega arith) documented

search-mates_example :
    (w : Try) × Memᴰ w (to_knight ∷ to_queen ∷ slide ∷ [])
    × Mates board squares floats 0 w
    × (search board squares floats network 3 1 5 (0 ∷ [])
        ≡ done (index_uci board squares (move_index board squares w) 0))
search-mates_example =
    search-mates board squares floats network 3 1 5 (0 ∷ []) 0 slide refl (tail (tail (head refl)))
      refl

search-MostVisited_example :
    Ends board squares floats network
      (MostVisited board squares floats network 3 2)
      (search board squares floats network 3 0 5 (2 ∷ []))
search-MostVisited_example =
    search-MostVisited board squares floats network 3 0 5 (2 ∷ []) 2 refl (omega arith)
      (λ m k. refl) refl
