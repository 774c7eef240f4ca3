-- ===== src/Game/Valid.antt =====
-- What holds of every game that the program stores: its moves replay, its ply counts them, and it
-- is finished exactly when it has a result.
use blundernet.Base.{
  ℕ, ◌≡◌, ◌≢◌, refl, sym, ap, ◌∙◌, subst, Text, String, List, [], ◌∷◌, ◌++◌, length, Bool, true,
  false, none, some, ◌⊎◌, inl, inr, arith, Option-cases, Bool-cases,
}
use blundernet.Base.Int.{ℤ}
use blundernet.Errors.{Except, ok, err, illegal_move, game_finished, not_your_turn}
use blundernet.Chess.{Color, Outcome, no_outcome, white_won, black_won, draw, color_eq, Rules}
use blundernet.Game.{
  Game, ongoing, finished, is_finished, undecided, new, turn, normalise, result_of, is_decided,
  method_string, resign, replay_from, replay, settle, push_move, apply_move,
}

-- The fields that say how a game went.
pub record SameResult (g g' : Game) : Type 0 where
  pub moves : g'.moves ≡ g.moves
  pub ply : g'.ply ≡ g.ply
  pub status : g'.status ≡ g.status
  pub result : g'.result ≡ g.result
  pub termination : g'.termination ≡ g.termination

module _ (rules : Rules) where
  open rules use {GameState, start, move_str, outcome, method}

  pub record IsValid (g : Game) : Type 0 where
    pub state : GameState
    pub replays : replay rules g ≡ some state
    pub counted : g.ply ≡ length g.moves
    pub live : g.status ≡ ongoing → (outcome state ≡ no_outcome) × (g.result ≡ undecided)
    pub decided : g.status ≡ finished → g.result ≢ undecided
    pub reason :
        g.status ≡ finished
        → (g.termination ≡ "resignation")
          ⊎ ((g.result ≡ result_of (outcome state))
              × (g.termination ≡ method_string (method state)))

  pub IsValid-SameResult : (g g' : Game) → SameResult g g' → IsValid g → IsValid g'
  unfolding replay
  IsValid-SameResult g g' same v = record {
    state = v.state;
    replays = ap (replay_from rules start) same.moves ∙ v.replays;
    counted = ground (arith, ap length same.moves);
    live = λ o. ground (arith, v.live);
    decided = λ o. ground (arith, v.decided);
    reason = λ o. ground (arith, v.reason);
  }

  -- The state of a game, joined to one more move.
  pub replay_from-snoc :
      (cg : GameState) (ms : List Text) (m : Text) (next : GameState)
      → replay_from rules cg ms ≡ some next
      → replay_from rules cg (ms ++ m ∷ []) ≡ move_str next m
  unfolding replay_from
  replay_from-snoc cg [] m next e = ground arith
  replay_from-snoc cg (x ∷ ms) m next e = elim (Option-cases (move_str cg x)) [
    | inl stuck ↦ ground arith
    | inr (mid, plays) ↦ ground (arith, replay_from-snoc mid ms m next)
  ]

  pub new-IsValid :
      (id : String) (c : Color) (level : ℤ) (rated : Bool) (now : ℕ)
      → outcome start ≡ no_outcome
      → IsValid (new id c level rated now)
  unfolding new replay replay_from
  new-IsValid id c level rated now fresh = record {
    state = start;
    replays = refl;
    counted = refl;
    live = λ _. (fresh, refl);
    decided = λ e. cc;
    reason = λ e. cc;
  }

  -- What a successful move went through.
  pub record Moved (now : ℕ) (color : Color) (uci : Text) (g g' : Game) : Type 0 where
    pub before : GameState
    pub after : GameState
    pub was_live : g.status ≡ ongoing
    pub in_turn : turn g ≡ color
    pub replays : replay rules g ≡ some before
    pub plays : move_str before (normalise uci) ≡ some after
    pub result : g' ≡ settle rules after (push_move now (normalise uci) g)

  color_eq→eq : (a b : Color) → color_eq a b ≡ true → a ≡ b
  color_eq→eq a b h = ground arith

  pub apply_move-Moved :
      (now : ℕ) (color : Color) (uci : Text) (g g' : Game)
      → apply_move rules now color uci g ≡ ok g'
      → Moved now color uci g g'
  unfolding apply_move
  apply_move-Moved now color uci g g' e = elim (Option-cases (replay rules g)) [
    | inl broken ↦ absurd (ground arith)
    | inr (before, replays) ↦ elim (Option-cases (move_str before (normalise uci))) [
      | inl refused ↦ absurd (ground arith)
      | inr (after, plays) ↦ record {
        before = before;
        after = after;
        was_live = ground arith;
        in_turn = ground arith;
        replays = replays;
        plays = plays;
        result = ground arith;
      }
    ]
  ]

  decided_outcome : (o : Outcome) → is_decided o ≡ true → result_of o ≢ undecided
  unfolding result_of
  decided_outcome no_outcome h = λ e. cc
  decided_outcome white_won h = λ e. cc
  decided_outcome black_won h = λ e. cc
  decided_outcome draw h = λ e. cc

  undecided_outcome : (o : Outcome) → is_decided o ≡ false → o ≡ no_outcome
  undecided_outcome o h = ground arith

  pub settle-IsValid :
      (next : GameState) (g : Game)
      → replay rules g ≡ some next
      → g.ply ≡ length g.moves
      → g.status ≡ ongoing
      → g.result ≡ undecided
      → IsValid (settle rules next g)
  unfolding settle replay
  settle-IsValid next g r c s u = elim (Bool-cases (is_decided (outcome next))) [
    | inl over ↦ rw over (record {
      state = next;
      replays = r;
      counted = c;
      live = λ e. cc;
      decided = λ _. decided_outcome (outcome next) over;
      reason = λ _. inr (refl, refl);
    })
    | inr more ↦ rw more (record {
      state = next;
      replays = r;
      counted = c;
      live = λ _. (undecided_outcome (outcome next) more, u);
      decided = λ e. cc;
      reason = λ e. cc;
    })
  ]

  -- If ApplyMove accepts a move in a valid game, the game that results is valid: it replays, its
  -- ply counts its moves, and it is finished exactly if the rules decide the position, with
  -- their result and reason.
  pub apply_move-IsValid :
      (now : ℕ) (color : Color) (uci : Text) (g g' : Game)
      → IsValid g
      → apply_move rules now color uci g ≡ ok g'
      → IsValid g'
  unfolding replay push_move
  apply_move-IsValid now color uci g g' v e =
      let m : Moved now color uci g g' = apply_move-Moved now color uci g g' e in
      subst IsValid (sym m.result) (
        settle-IsValid m.after (push_move now (normalise uci) g)
          (replay_from-snoc start g.moves (normalise uci) m.before m.replays ∙ m.plays) refl
          m.was_live (v.live m.was_live).1)

  -- If a player may resign a valid game, the game that results is valid.
  pub resign-IsValid :
      (now : ℕ) (color : Color) (g g' : Game) → IsValid g → resign now color g ≡ ok g' → IsValid g'
  unfolding resign replay
  resign-IsValid now color g g' v e = record {
    state = v.state;
    replays = ground arith;
    counted = ground arith;
    live = λ o. absurd (ground arith);
    decided = λ o u. ground arith;
    reason = λ o. inl (ground arith);
  }

  -- The four answers of ApplyMove on a game whose moves lead to `cg`.
  pub data Verdict (color : Color) (uci : Text) (g : Game) (cg : GameState) (r : Except Game)
      : Type 0 where
    over : g.status ≡ finished → r ≡ err game_finished → Verdict color uci g cg r
    waits : g.status ≡ ongoing → turn g ≢ color → r ≡ err not_your_turn → Verdict color uci g cg r
    refused :
        g.status ≡ ongoing
        → turn g ≡ color
        → move_str cg (normalise uci) ≡ none
        → r ≡ err illegal_move
        → Verdict color uci g cg r
    moved :
        (g' : Game) (next : GameState)
        → g.status ≡ ongoing
        → turn g ≡ color
        → move_str cg (normalise uci) ≡ some next
        → r ≡ ok g'
        → g'.moves ≡ g.moves ++ normalise uci ∷ []
        → replay rules g' ≡ some next
        → Verdict color uci g cg r

  eq→color_eq : (a b : Color) → color_eq a b ≡ false → a ≢ b
  eq→color_eq a b h = ground arith

  settle-moves : (next : GameState) (g : Game) → (settle rules next g).moves ≡ g.moves
  unfolding settle
  settle-moves next g = ground arith

  replay-settle-push_move :
      (now : ℕ) (m : Text) (g : Game) (cg next : GameState)
      → replay rules g ≡ some cg
      → move_str cg m ≡ some next
      → replay rules (settle rules next (push_move now m g)) ≡ some next
  unfolding replay push_move
  replay-settle-push_move now m g cg next r e =
      rw (settle-moves next (push_move now m g)) (replay_from-snoc start g.moves m cg r ∙ e)

  -- On a valid game ApplyMove never fails to replay. It answers that the game is over if it is
  -- finished; that it is not that side's turn if the turn is the other side's; that the move is
  -- illegal if the rules refuse the trimmed, lower-case move in the position that the stored
  -- moves lead to; and otherwise a game whose moves are the old ones and that one, which replays
  -- to the position after it.
  pub apply_move-Verdict :
      (now : ℕ) (color : Color) (uci : Text) (g : Game) (v : IsValid g)
      → Verdict color uci g v.state (apply_move rules now color uci g)
  apply_move-Verdict now color uci g v = elim (Bool-cases (is_finished g.status)) [
    | inl f ↦ over (ground arith) (unfold apply_move in rw f)
    | inr l ↦ elim (Bool-cases (color_eq (turn g) color)) [
      | inr w ↦ waits (ground arith) (eq→color_eq _ _ w) (unfold apply_move in rw (l, w))
      | inl t ↦ elim (Option-cases (move_str v.state (normalise uci))) [
        | inl e ↦
            refused (ground arith) (color_eq→eq _ _ t) e
              (unfold apply_move in rw (l, t, v.replays, e))
        | inr (next, e) ↦
            let g' : Game = settle rules next (push_move now (normalise uci) g) in
            moved g' next (ground arith) (color_eq→eq _ _ t) e
              (unfold apply_move in rw (l, t, v.replays, e))
              (unfold push_move in settle-moves next _)
              (replay-settle-push_move now (normalise uci) g v.state next v.replays e)
      ]
    ]
  ]
