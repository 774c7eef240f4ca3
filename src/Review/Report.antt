-- ===== src/Review/Report.antt =====
-- Game of internal/review/review.go: the report on a game.
pub mod Labels
pub mod Told
use blundernet.Base.{
  ℕ, suc, ◌+◌, ◌%◌, Text, text_eq, Bool, true, false, not, ◌&&◌, List, [], ◌∷◌, length, Option,
  none, some, ◌==◌, if◌then◌else◌,
}
use blundernet.Base.Int.{ℤ}
use blundernet.Chess.{
  Method, checkmate, stalemate, fivefold_repetition, seventy_five_move_rule, insufficient_material,
}
use blundernet.Float.{Float64}
use blundernet.Review.{
  Boards, Analysis, Judgement, brilliant, great, Counts, no_counts, add, is_best, is_fine, Move,
  Result, num, win_percent, accuracy_of, judge, round_tenth,
}
use blundernet.Review.Board.{find_uci, sacrificed}
use blundernet.Review.Accuracy.{side_accuracy, worst}

pub data ReviewError : Type 0 where
  illegal : Text → ReviewError
  unanalysed : ReviewError

pub data Reviewed (A : Type 0) : Type 0 where
  reviewed : A → Reviewed A
  failed : ReviewError → Reviewed A

module _ (fl : Float64) (boards : Boards) where
  open fl use {F, sub, lt, le}
  open boards use {Position, start, san, update, turn, status, show}

  -- A move that replays: sans[i], ucis[i], positions[i] and positions[i + 1].
  pub record Step : Type 0 where
    pub san : Text
    pub uci : Text
    pub before : Position
    pub after : Position

  -- The loop over the moves; it ends at the first that is not legal.
  unfoldable pub replay : Position → List Text → List Step
  replay p [] = []
  replay p (u ∷ us) = elim (find_uci fl boards p u) [
    | none ↦ []
    | some m ↦
        record { san = san p m; uci = u; before = p; after = update p m } ∷ replay (update p m) us
  ]

  abbrev pub first_illegal : List Text → Bool
  first_illegal [] = false
  first_illegal (u ∷ us) = elim (find_uci fl boards start u) [ none ↦ true | some m ↦ false ]

  -- The positions after the start.
  abbrev pub afters : List Step → List Position
  afters [] = []
  afters (s ∷ steps) = s.after ∷ afters steps

  unfoldable pub analyse_all :
      (ℕ → Text → Option Analysis) → ℕ → List Position → Option (List Analysis)
  analyse_all analyse i [] = some []
  analyse_all analyse i (p ∷ ps) = elim (analyse i (show p)) [
    | none ↦ none
    | some e ↦ elim (analyse_all analyse (suc i) ps) [ none ↦ none | some es ↦ some (e ∷ es) ]
  ]

  -- The mover's chances after the move.
  unfoldable pub win_after : Method → Analysis → F
  win_after checkmate e = num fl 100
  win_after stalemate e = num fl 50
  win_after fivefold_repetition e = num fl 50
  win_after seventy_five_move_rule e = num fl 50
  win_after insufficient_material e = num fl 50
  win_after _ e = sub (num fl 100) (win_percent fl e.cp e.mate)

  abbrev pub is_brilliant : Step → F → Bool
  is_brilliant s after =
      le (num fl 3) (sacrificed fl boards s.before s.after (turn s.before)) && le (num fl 45) after

  abbrev pub is_great : F → Option (ℤ × ℤ) → Bool
  is_great before none = false
  is_great before (some (cp, mate)) =
      le before (num fl 90) && le (num fl 20) (sub before (win_percent fl cp mate))

  unfoldable pub label : Step → Analysis → F → F → Judgement → Judgement
  label s e before after j =
      let j = if is_fine j && is_brilliant s after then brilliant else j in
      if is_best j && is_great before e.second then great else j

  abbrev pub better_san : Position → Text → Text
  better_san p best = elim (find_uci fl boards p best) [ none ↦ [] | some m ↦ san p m ]

  abbrev pub has_better : Step → Analysis → Bool
  has_better s e = not (text_eq s.uci e.best) && not (length e.best == 0)

  -- The body of the loop that judges the moves.
  unfoldable pub judge_step : ℕ → Step → Analysis → Analysis → Move fl
  judge_step i s e next =
      let before = win_percent fl e.cp e.mate in
      let after = win_after (status s.after) next in
      let lost = sub before after in
      record {
        ply = i + 1;
        san = s.san;
        uci = s.uci;
        white = i % 2 == 0;
        judgement = label s e before after (judge fl lost s.uci e.best);
        win_before = round_tenth fl before;
        win_after = round_tenth fl after;
        better = if has_better s e then e.best else [];
        better_san = if has_better s e then better_san s.before e.best else [];
        accuracy = round_tenth fl (accuracy_of fl lost);
        fen = show s.after;
      }

  unfoldable pub judge_steps : ℕ → List Step → List Analysis → List (Move fl)
  judge_steps i (s ∷ steps) (e ∷ next ∷ es) =
      judge_step i s e next ∷ judge_steps (suc i) steps (next ∷ es)
  judge_steps i _ _ = []

  unfoldable pub count : Bool → List (Move fl) → Counts → Counts
  count side [] c = c
  count side (m ∷ ms) c = count side ms (
      if side
      then (if m.white then add m.judgement c else c)
      else (if m.white then c else add m.judgement c))

  abbrev pub report : List (Move fl) → Result fl
  report moves = record {
    moves = moves;
    white_accuracy = side_accuracy fl moves true;
    black_accuracy = side_accuracy fl moves false;
    white = count true moves no_counts;
    black = count false moves no_counts;
    worst = worst fl moves;
  }

  abbrev pub after_analysis : List Step → Option (List Analysis) → Reviewed (Result fl)
  after_analysis steps none = failed unanalysed
  after_analysis steps (some es) = reviewed (report (judge_steps 0 steps es))

  abbrev pub first_text : List Text → Text
  first_text [] = []
  first_text (u ∷ us) = u

  -- Game
  unfoldable pub review_game : (ℕ → Text → Option Analysis) → List Text → Reviewed (Result fl)
  review_game analyse moves =
      if first_illegal moves
      then failed (illegal (first_text moves))
      else after_analysis (replay start moves)
          (analyse_all analyse 0 (start ∷ afters (replay start moves)))
