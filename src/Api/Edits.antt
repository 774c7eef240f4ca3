-- ===== src/Api/Edits.antt =====
-- What an edit of a game keeps, and what the handlers do to the stored games, the queue and the
-- archive.
use blundernet.Base.{ℕ, ◌≡◌, refl, sym, subst, ◌∙◌, ap, String, Text, some, arith}
use blundernet.Errors.{ok}
use blundernet.Chess.{Color, Rules}
use blundernet.Game.{Game, finished, resign, normalise, settle, push_move, apply_move}
use blundernet.Game.Valid.{
  SameResult, IsValid, IsValid-SameResult, Moved, apply_move-Moved, apply_move-IsValid,
  resign-IsValid,
}
use blundernet.Store.Games.{Db, put, bump}

-- The fields that tell whose game it is.
pub record SameSeats (g g' : Game) : Type 0 where
  pub id : g'.id ≡ g.id
  pub player_color : g'.player_color ≡ g.player_color
  pub user_id : g'.user_id ≡ g.user_id
  pub friend : g'.friend ≡ g.friend
  pub rated : g'.rated ≡ g.rated

module _ (rules : Rules) where
  -- What every write of a handler or of the worker does to the game that it read.
  pub record IsEdit (g g' : Game) : Type 0 where
    pub seats : SameSeats g g'
    pub revision : g'.revision ≡ g.revision
    pub final : g.status ≡ finished → SameResult g g'
    pub valid : IsValid rules g → IsValid rules g'

  settle-seats :
      (cg : rules.GameState) (now : ℕ) (m : Text) (g : Game)
      → SameSeats g (settle rules cg (push_move now m g))
        × ((settle rules cg (push_move now m g)).revision ≡ g.revision)
  unfolding settle push_move
  settle-seats cg now m g = ground arith

  pub apply_move-IsEdit :
      (now : ℕ) (color : Color) (uci : Text) (g g' : Game)
      → apply_move rules now color uci g ≡ ok g'
      → IsEdit g g'
  apply_move-IsEdit now color uci g g' e =
      let m : Moved rules now color uci g g' = apply_move-Moved rules now color uci g g' e in
      let kept = settle-seats m.after now (normalise uci) g in
      record {
        seats = subst (SameSeats g) (sym m.result) kept.0;
        revision = ap (λ (h : Game). h.revision) m.result ∙ kept.1;
        final = λ f. absurd (ground (arith, m.was_live));
        valid = λ v. apply_move-IsValid rules now color uci g g' v e;
      }

  pub resign-IsEdit :
      (now : ℕ) (color : Color) (g g' : Game) → resign now color g ≡ ok g' → IsEdit g g'
  unfolding resign
  resign-IsEdit now color g g' e = record {
    seats = ground arith;
    revision = ground arith;
    final = λ f. absurd (ground arith);
    valid = λ v. resign-IsValid rules now color g g' v e;
  }

  pub join-IsEdit : (g : Game) (user : String) → IsEdit g (record g { opponent_id = user })
  join-IsEdit g user = record {
    seats = ground arith;
    revision = refl;
    final = λ f. ground arith;
    valid = λ v. IsValid-SameResult rules g _ (ground arith) v;
  }

  -- What a write leaves in the store: nothing new, or an edit of the game that was there, under its
  -- own id and with the next revision.
  pub data Change (id : String) (db db' : Db) : Type 0 where
    kept : db' ≡ db → Change id db db'
    wrote :
        (g g' : Game)
        → db id ≡ some g
        → IsEdit g g'
        → db' ≡ put db g'.id (some (bump g'))
        → Change id db db'
