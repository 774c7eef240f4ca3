-- ===== src/Api/Creation.antt =====
-- What creating a game does to the shared state.
use blundernet.Base.{
  ℕ, ◌≡◌, refl, subst, if◌then◌else◌, String, Bool, false, true, Option, none, some, ◌⊎◌, inl, inr,
  arith,
}
use blundernet.Base.Int.{ℤ}
use blundernet.Chess.{Color, no_outcome, Rules}
use blundernet.Float.{Float64}
use blundernet.Game.{Game, new}
use blundernet.Game.Valid.{IsValid, IsValid-SameResult, new-IsValid}
use blundernet.Store.Games.{create, put, bump}
use blundernet.Store.Games.Answers.{create-Answers, put_self}
use blundernet.World.{World, Faults}
use blundernet.Api.{refused}
use blundernet.Api.Create.{
  Mode, is_rated_mode, parse_color, parse_mode, level_of, first_state, open_game, create_with,
  after_create, handle_create,
}
use blundernet.Api.Effects.{JobFrom, JobFrom-Grow, Transition, JobsGrow, Transition-none}

module _ (fl : Float64) (rules : Rules) where
  first_state-IsValid :
      (id : String) (color : Color) (mode : Mode) (level : ℤ) (owner : Option String) (now : ℕ)
      → rules.outcome rules.start ≡ no_outcome
      → IsValid rules (first_state id color mode level owner now)
  unfolding first_state new
  first_state-IsValid id color mode level owner now fresh =
      IsValid-SameResult rules (new id color level (is_rated_mode mode) now) _ (ground arith)
        (new-IsValid rules id color level (is_rated_mode mode) now fresh)

  first_state-id :
      (id : String) (color : Color) (mode : Mode) (level : ℤ) (owner : Option String) (now : ℕ)
      → (first_state id color mode level owner now).id ≡ id
  unfolding first_state new
  first_state-id id color mode level owner now = refl

  open_game-JobFrom :
      (f : Faults) (g : Game) (w : World fl) → JobFrom fl 0 g w (open_game fl f g w).0
  unfolding open_game
  open_game-JobFrom f g w = ground arith

  -- A new game under an id that no game has, and at most one job for it.
  pub record Creation (id : String) (w w' : World fl) : Type 0 where
    pub game : Game
    pub free : w.games id ≡ none
    pub named : game.id ≡ id
    pub valid : IsValid rules game
    pub stored : w'.games ≡ put w.games game.id (some (bump game))
    pub jobs : JobsGrow w.jobs w'.games w'.jobs

  store-Creation :
      (f : Faults) (id : String) (g : Game) (w : World fl)
      → g.id ≡ id
      → IsValid rules g
      → let w' = (after_create fl f w (create f.write g w.games)).0 in
        Transition fl rules w w' ⊎ Creation id w w'
  store-Creation f id g w i v = elim (create-Answers f.write g w.games) [
    | inr (x, taken) ↦ rw taken (inl (Transition-none fl rules id w))
    | inl (free, stored) ↦
        let w' : World fl = record w { games = put w.games g.id (some (bump g)) } in
        let opened = open_game-JobFrom f (bump g) w' in
        rw stored (
          inr (record {
            game = g;
            free = subst (λ k. w.games k ≡ none) i free;
            named = i;
            valid = v;
            stored = opened.0;
            jobs =
                JobFrom-Grow fl 0 (bump g) w' (open_game fl f (bump g) w').0
                  (put_self w.games (bump g)) opened;
          }))
  ]

  -- If the position that chess starts from is undecided, then creating a game is a step as any
  -- other request's, or puts one valid game under the new id, which no game had, and sends at
  -- most one job, which is not a job for the bot to move in a friend game.
  pub handle_create-Creation :
      (f : Faults) (now : ℕ) (id : String) (owner : Option String) (rung : Option ℕ)
      (color mode : String) (level : ℤ) (w : World fl)
      → rules.outcome rules.start ≡ no_outcome
      → let w' = (handle_create fl f now id owner rung color mode level w).0 in
        Transition fl rules w w' ⊎ Creation id w w'
  unfolding handle_create
  handle_create-Creation f now id owner rung color mode level w fresh =
      parsed (parse_color color) (parse_mode mode)
    where
      nothing : Transition fl rules w w ⊎ Creation id w w
      nothing = inl (Transition-none fl rules id w)

      tried :
          (c : Color) (m : Mode) (b : Bool)
          → let w' =
              (if b
                then (w, refused 500)
                else after_create fl f w (
                    create f.write
                      (first_state id c m (level_of m rung level) owner now)
                      w.games)).0 in
            Transition fl rules w w' ⊎ Creation id w w'
      tried c m true = nothing
      tried c m false =
          store-Creation f id (first_state id c m (level_of m rung level) owner now) w
            (first_state-id id c m (level_of m rung level) owner now)
            (first_state-IsValid id c m (level_of m rung level) owner now fresh)

      parsed :
          (c : Option Color) (m : Option Mode)
          → let w' = (create_with fl f now id owner rung c m level w).0 in
            Transition fl rules w w' ⊎ Creation id w w'
      parsed none m = nothing
      parsed (some c) none = nothing
      parsed (some c) (some m) = tried c m f.identity
