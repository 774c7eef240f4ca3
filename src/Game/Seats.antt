-- ===== src/Game/Seats.antt =====
-- Who may move: the seats that ColorFor gives out.
use blundernet.Base.{◌≡◌, ◌≢◌, ◌⊎◌, String, eq_iff, true, false, some, arith}
use blundernet.Chess.{Color, other}
use blundernet.Game.{Game, color_for}

-- In a friend game, a caller that ColorFor gives a side is signed in, and is the creator with
-- the creator's colour or the second player with the other colour.
pub color_for_friend :
    (g : Game) (user : String) (c : Color)
    → g.friend ≡ true
    → color_for g user ≡ some c
    → (user ≢ "")
      × (((user ≡ g.user_id) × (c ≡ g.player_color))
          ⊎ ((user ≡ g.opponent_id) × (c ≡ other g.player_color)))
unfolding color_for
color_for_friend g user c f e =
    ground (arith, eq_iff user "", eq_iff user g.user_id, eq_iff user g.opponent_id)

-- In a game against the bot that has an owner, a caller that ColorFor gives a side is the owner,
-- and the side is the owner's colour.
pub color_for_bot :
    (g : Game) (user : String) (c : Color)
    → g.friend ≡ false
    → g.user_id ≢ ""
    → color_for g user ≡ some c
    → (user ≡ g.user_id) × (c ≡ g.player_color)
unfolding color_for
color_for_bot g user c f o e = ground (arith, eq_iff g.user_id "", eq_iff user g.user_id)

-- Two callers that ColorFor gives the same side of a game with an owner are the same user.
pub color_for_exclusive :
    (g : Game) (user rival : String) (c : Color)
    → g.user_id ≢ ""
    → color_for g user ≡ some c
    → color_for g rival ≡ some c
    → user ≡ rival
unfolding color_for
color_for_exclusive g user rival c o e d = ground (
  arith,
  eq_iff g.user_id "",
  eq_iff user "",
  eq_iff rival "",
  eq_iff user g.user_id,
  eq_iff rival g.user_id,
  eq_iff user g.opponent_id,
  eq_iff rival g.opponent_id,
)

-- The owner of a game always has a seat.
pub color_for_owner : (g : Game) → g.user_id ≢ "" → color_for g g.user_id ≡ some g.player_color
unfolding color_for
color_for_owner g o = ground (arith, eq_iff g.user_id "", eq_iff g.user_id g.user_id)
