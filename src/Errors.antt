-- ===== src/Errors.antt =====
-- The sentinel errors of internal/game and internal/store that handlers tell apart, and the result
-- of a fallible call. Every other error (a lost connection, a failed query) is `backend`.

pub data Error : Type 0 where
  not_your_turn illegal_move game_finished broken_replay : Error
  not_found conflict backend : Error

pub data Except {ℓ} (A : Type ℓ) : Type ℓ where
  ok : A → Except A
  err : Error → Except A
