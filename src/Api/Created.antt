-- ===== src/Api/Created.antt =====
-- Every answer of handleCreate of internal/httpapi/server.go, with the game that it creates.
use blundernet.Base.{ℕ, ◌≡◌, ◌≢◌, ◌⊎◌, String, [], ◌∷◌, Bool, true, false, Option, none, some}
use blundernet.Base.Int.{ℤ}
use blundernet.Chess.{Color, black}
use blundernet.Float.{Float64}
use blundernet.Game.{Game, ongoing, undecided}
use blundernet.Store.Games.{put, write}
use blundernet.World.{World, Faults, move}
use blundernet.Api.{Reply, sent, refused, user_id_of}
use blundernet.Api.Create.{Mode, friend_mode}
use blundernet.Api.Words.{Asks, Means, Terms}

module _ (fl : Float64) where
  -- The game of a request, as it is stored.
  pub record Fresh (now : ℕ) (id : String) (owner : Option String) (rung : Option ℕ) (c : Color)
      (m : Mode) (level : ℤ) (g : Game) : Type 0 where
    pub rated : Bool
    pub friend : Bool
    pub at_level : ℤ
    pub terms : Terms rung level m rated friend at_level
    pub is : g ≡ record {
      id = id;
      moves = [];
      ply = 0;
      revision = 1;
      player_color = c;
      user_id = user_id_of owner;
      level = at_level;
      rated = rated;
      friend = friend;
      opponent_id = "";
      status = ongoing;
      result = undecided;
      termination = "";
      created_at = now;
      updated_at = now;
    }

  -- The bot opens if the player took black and the game is against it.
  abbrev pub Opens : Color → Mode → Type 0
  Opens c m = (c ≡ black) × (m ≢ friend_mode)

  -- The queue, the stored game and the reply after the game was stored.
  pub data Opening (f : Faults) (c : Color) (m : Mode) (g : Game) (w w' : World fl) (reply : Reply)
      : Type 0 where
    waits : (Opens c m → ⊥) → w'.jobs ≡ w.jobs → reply ≡ sent 201 g → Opening f c m g w w' reply
    opens :
        Opens c m
        → f.enqueue ≡ false
        → w'.jobs ≡ record { game_id = g.id; ply = 0; kind = move } ∷ w.jobs
        → reply ≡ sent 201 g
        → Opening f c m g w w' reply
    forgets :
        Opens c m
        → f.enqueue ≡ true
        → w'.jobs ≡ w.jobs
        → reply ≡ refused 500
        → Opening f c m g w w' reply

  pub data Verdict (f : Faults) (now : ℕ) (id : String) (owner : Option String) (rung : Option ℕ)
      (color mode : String) (level : ℤ) (w : World fl) (r : World fl × Reply) : Type 0 where
    malformed :
        ((c : Color) → Asks color c → ⊥) ⊎ ((m : Mode) → Means mode m → ⊥)
        → r ≡ (w, refused 400)
        → Verdict f now id owner rung color mode level w r
    not_created :
        (c : Color) (m : Mode)
        → Asks color c
        → Means mode m
        → (f.identity ≡ true) ⊎ (f.write ≡ true) ⊎ ((old : Game) × (w.games id ≡ some old))
        → r ≡ (w, refused 500)
        → Verdict f now id owner rung color mode level w r
    created :
        (c : Color) (m : Mode) (g : Game)
        → Asks color c
        → Means mode m
        → (f.identity ≡ false) × (f.write ≡ false) × (w.games id ≡ none)
        → Fresh now id owner rung c m level g
        → (r.0.games ≡ put w.games id (some g))
          × (r.0.archive ≡ w.archive)
          × (r.0.events ≡ w.events)
        → Opening f c m g w r.0 r.1
        → Verdict f now id owner rung color mode level w r

  -- What became of a game that was stored.
  abbrev Opened : Faults → Color → Mode → Game → World fl → World fl × Reply → Type 0
  Opened f c m g w r =
      ((r.0.games ≡ put w.games g.id (some g))
        × (r.0.archive ≡ w.archive)
        × (r.0.events ≡ w.events))
      × Opening f c m g w r.0 r.1
