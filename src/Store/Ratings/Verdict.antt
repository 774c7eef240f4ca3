-- ===== src/Store/Ratings/Verdict.antt =====
-- Every answer of SaveFinished of internal/store/ratings.go, with the rating and the rung that a
-- result gives.
use blundernet.Base.{
  ℕ, ◌+◌, ◌≡◌, ◌≢◌, ◌⊎◌, inl, inr, refl, ap, ◌∙◌, String, str_eq, eq_iff, Bool, true, false, not,
  ◌&&◌, [], ◌∷◌, none, some, Option, arith, Option-cases, Bool-cases,
}
use blundernet.Base.Int.{ℤ}
use blundernet.Errors.{Except, ok, err, backend}
use blundernet.Float.{Float64}
use blundernet.Rating.{Player, GameResult, update}
use blundernet.Game.{Game, undecided}
use blundernet.Store.Ratings.{
  Score, score_for, ladder_step, UserRow, Archive, put_user, put_game, apply_rating, bot_result,
  rated_row, move_ladder, rate, owner_exists, save_finished,
}
use blundernet.Store.Ratings.Once.{rate-games, rate-others}
use blundernet.Store.Ratings.Worth.{
  Worth, ladder_step-Worth, score_for-cases, score_for-undecided, Bot, bot_result-Bot,
}

module _ (fl : Float64) where
  open fl use {F, ratio, add, mul}

  abbrev pub laddered_row : Player fl.F → Score → UserRow fl → UserRow fl
  laddered_row p s row = record row {
    glicko = p;
    rated_games = row.rated_games + 1;
    bot_level = ladder_step s row.bot_level;
  }

  apply_rating-eq :
      (fuel : ℕ) (id : String) (s : Score) (level : ℤ) (a : Archive fl) (row : UserRow fl)
      (p : Player fl.F)
      → a.users id ≡ some row
      → update fl fuel row.glicko (bot_result fl s level ∷ []) ≡ some p
      → apply_rating fl fuel id s level a ≡ some (put_user fl id (rated_row fl p row) a)
  unfolding apply_rating
  apply_rating-eq fuel id s level a row p r u = rw (apply_rating, r, u) refl

  put_user_self :
      (id : String) (row : UserRow fl) (a : Archive fl) → (put_user fl id row a).users id ≡ some row
  put_user_self id row a = ground (arith, eq_iff id id)

  abbrev rated_archive : Game → Score → Player fl.F → UserRow fl → Archive fl → Archive fl
  rated_archive g s p row a =
      put_user fl g.user_id (laddered_row p s row) (put_user fl g.user_id (rated_row fl p row) a)

  is_rated :
      (g : Game) → g.user_id ≢ "" → g.rated ≡ true → (not (str_eq g.user_id "") && g.rated) ≡ true
  is_rated g o r = ground (arith, eq_iff g.user_id "")

  rate-eq :
      (fuel : ℕ) (g : Game) (s : Score) (a : Archive fl) (row : UserRow fl) (p : Player fl.F)
      → g.user_id ≢ ""
      → g.rated ≡ true
      → score_for g ≡ some s
      → a.users g.user_id ≡ some row
      → update fl fuel row.glicko (bot_result fl s g.level ∷ []) ≡ some p
      → rate fl fuel g a ≡ some (rated_archive g s p row a)
  unfolding rate move_ladder
  rate-eq fuel g s a row p o r sc u e =
      rw (is_rated g o r, sc, apply_rating-eq fuel g.user_id s g.level a row p u e)
        (rw (move_ladder, put_user_self g.user_id (rated_row fl p row) a) refl)

  -- A rated game with an owner and a result, and what its rating is given.
  pub record Rating (fuel : ℕ) (g : Game) (a : Archive fl) (settled : Option (Player F)) (next : ℕ)
      : Type 0 where
    pub owned : g.user_id ≢ ""
    pub rated : g.rated ≡ true
    pub row : UserRow fl
    pub account : a.users g.user_id ≡ some row
    pub opponent : GameResult F
    pub bot : Bot fl g opponent
    pub worth : Worth fl g opponent.score row.bot_level next
    pub settles : update fl fuel row.glicko (opponent ∷ []) ≡ settled

  abbrev pub Unrated : Game → Type 0
  Unrated g = (g.user_id ≡ "") ⊎ (g.rated ≡ false) ⊎ (g.result ≡ undecided)

  -- What archiving did to the accounts.
  pub data Accounts (fuel : ℕ) (g : Game) (a b : Archive fl) : Type 0 where
    untouched : Unrated g → b.users ≡ a.users → Accounts fuel g a b
    updated :
        (p : Player F) (next : ℕ) (r : Rating fuel g a (some p) next)
        → b.users g.user_id
          ≡ some
              (record r.row { glicko = p; rated_games = r.row.rated_games + 1; bot_level = next })
        → ((user : String) → user ≢ g.user_id → b.users user ≡ a.users user)
        → Accounts fuel g a b

  pub data Verdict (lost : Bool) (fuel : ℕ) (g : Game) (a : Archive fl)
      (r : Archive fl × Except (Unit {0})) : Type 0 where
    unreached : lost ≡ true → r ≡ (a, err backend) → Verdict lost fuel g a r
    known :
        (old : Game)
        → lost ≡ false
        → a.games g.id ≡ some old
        → r ≡ (a, ok tt)
        → Verdict lost fuel g a r
    orphan :
        lost ≡ false
        → a.games g.id ≡ none
        → g.user_id ≢ ""
        → a.users g.user_id ≡ none
        → r ≡ (a, err backend)
        → Verdict lost fuel g a r
    unsettled :
        (next : ℕ)
        → lost ≡ false
        → a.games g.id ≡ none
        → Rating fuel g a none next
        → r ≡ (a, err backend)
        → Verdict lost fuel g a r
    archived :
        (b : Archive fl)
        → lost ≡ false
        → a.games g.id ≡ none
        → (g.user_id ≡ "") ⊎ ((row : UserRow fl) × (a.users g.user_id ≡ some row))
        → r ≡ (b, ok tt)
        → b.games g.id ≡ some g
        → ((id : String) → id ≢ g.id → b.games id ≡ a.games id)
        → Accounts fuel g a b
        → Verdict lost fuel g a r

  saved_as :
      (fuel : ℕ) (g : Game) (a b : Archive fl)
      → a.games g.id ≡ none
      → owner_exists fl g a ≡ true
      → rate fl fuel g (put_game fl g a) ≡ some b
      → save_finished fl false fuel g a ≡ (b, ok tt)
  unfolding save_finished
  saved_as fuel g a b f o r = rw (f, o, r) refl

  not_saved :
      (fuel : ℕ) (g : Game) (a : Archive fl)
      → a.games g.id ≡ none
      → owner_exists fl g a ≡ true
      → rate fl fuel g (put_game fl g a) ≡ none
      → save_finished fl false fuel g a ≡ (a, err backend)
  unfolding save_finished
  not_saved fuel g a f o r = rw (f, o, r) refl

  owner_there :
      (g : Game) (a : Archive fl)
      → (g.user_id ≡ "") ⊎ ((row : UserRow fl) × (a.users g.user_id ≡ some row))
      → owner_exists fl g a ≡ true
  unfolding owner_exists
  owner_there g a (inl e) = ground (arith, e, eq_iff g.user_id "")
  owner_there g a (inr (row, e)) = ground (arith, e)

  owner_gone :
      (g : Game) (a : Archive fl)
      → g.user_id ≢ ""
      → a.users g.user_id ≡ none
      → owner_exists fl g a ≡ false
  unfolding owner_exists
  owner_gone g a o e = ground (arith, e, eq_iff g.user_id "")

  refused :
      (fuel : ℕ) (g : Game) (a : Archive fl)
      → a.games g.id ≡ none
      → owner_exists fl g a ≡ false
      → save_finished fl false fuel g a ≡ (a, err backend)
  unfolding save_finished
  refused fuel g a f o = rw (f, o) refl

  rate-Unrated : (fuel : ℕ) (g : Game) (a : Archive fl) → Unrated g → rate fl fuel g a ≡ some a
  unfolding rate score_for
  rate-Unrated fuel g a h = ground (arith, h, eq_iff g.user_id "")

  -- A game that is archived, with its accounts.
  stored :
      (fuel : ℕ) (g : Game) (a b : Archive fl)
      → a.games g.id ≡ none
      → (g.user_id ≡ "") ⊎ ((row : UserRow fl) × (a.users g.user_id ≡ some row))
      → rate fl fuel g (put_game fl g a) ≡ some b
      → Accounts fuel g a b
      → Verdict false fuel g a (save_finished fl false fuel g a)
  stored fuel g a b f o r acc =
      archived b refl f o (saved_as fuel g a b f (owner_there g a o) r)
        (at g.id ∙ ground (arith, eq_iff g.id g.id))
        (λ id ne. at id ∙ ground (arith, ne, eq_iff g.id id)) acc
    where
      at : (id : String) → b.games id ≡ (put_game fl g a).games id
      at id = ap (λ d. d id) (rate-games fl fuel g (put_game fl g a) b r)

  -- The rating stops the archiving where it does not settle.
  rate_stuck :
      (fuel : ℕ) (g : Game) (s : Score) (a : Archive fl) (row : UserRow fl)
      → g.user_id ≢ ""
      → g.rated ≡ true
      → score_for g ≡ some s
      → a.users g.user_id ≡ some row
      → update fl fuel row.glicko (bot_result fl s g.level ∷ []) ≡ none
      → rate fl fuel g a ≡ none
  unfolding rate apply_rating
  rate_stuck fuel g s a row o r sc u e = rw (is_rated g o r, sc, apply_rating, u, e) refl

  rated_verdict :
      (fuel : ℕ) (g : Game) (s : Score) (a : Archive fl) (row : UserRow fl) (o : Option (Player F))
      → a.games g.id ≡ none
      → g.user_id ≢ ""
      → g.rated ≡ true
      → score_for g ≡ some s
      → a.users g.user_id ≡ some row
      → update fl fuel row.glicko (bot_result fl s g.level ∷ []) ≡ o
      → Verdict false fuel g a (save_finished fl false fuel g a)
  rated_verdict fuel g s a row o f own r sc u e = settled o e
    where
      rating :
          (q : Option (Player F))
          → update fl fuel row.glicko (bot_result fl s g.level ∷ []) ≡ q
          → Rating fuel g a q (ladder_step s row.bot_level)
      rating q e = record {
        owned = own;
        rated = r;
        row = row;
        account = u;
        opponent = bot_result fl s g.level;
        bot = bot_result-Bot fl g s;
        worth = ladder_step-Worth fl g s row.bot_level (score_for-cases fl g s sc);
        settles = e;
      }

      settled :
          (q : Option (Player F))
          → update fl fuel row.glicko (bot_result fl s g.level ∷ []) ≡ q
          → Verdict false fuel g a (save_finished fl false fuel g a)
      settled none e = unsettled (ladder_step s row.bot_level) refl f (rating none e) (
          not_saved fuel g a f (owner_there g a (inr (row, u)))
            (rate_stuck fuel g s (put_game fl g a) row own r sc u e))
      settled (some p) e =
          let rated = rate-eq fuel g s (put_game fl g a) row p own r sc u e in
          stored fuel g a _ f (inr (row, u)) rated (
            updated p (ladder_step s row.bot_level) (rating (some p) e)
              (put_user_self g.user_id (laddered_row p s row)
                (put_user fl g.user_id (rated_row fl p row) (put_game fl g a)))
              (λ user ne. rate-others fl fuel g (put_game fl g a) _ user (inl ne) rated))

  -- SaveFinished fails and changes nothing if the transaction is lost, if the owner of a new
  -- game has no account, or if the Glicko-2 update does not settle; it succeeds and changes
  -- nothing if the game is in the archive already. In all other cases the game is archived
  -- beside the others. The accounts are then as they were if the game has no owner, is not rated
  -- or has no result; else only the owner's changes, which gets the Glicko-2 update of one game
  -- against the bot at the level's rating, with 1, 1/2 or 0 points as the owner's colour won,
  -- drew or lost, one more rated game, and a rung one higher, the same or one lower, kept
  -- between 1 and 6 where it moves.
  pub save_finished-Verdict :
      (lost : Bool) (fuel : ℕ) (g : Game) (a : Archive fl)
      → Verdict lost fuel g a (save_finished fl lost fuel g a)
  save_finished-Verdict true fuel g a = unreached refl (unfold save_finished in refl)
  save_finished-Verdict false fuel g a = elim (Option-cases (a.games g.id)) [
    | inr (old, was) ↦ known old refl was (unfold save_finished in rw was refl)
    | inl new ↦ elim (Bool-cases (str_eq g.user_id "")) [
      | inl anonymous ↦
          plain new (inl (ground (arith, anonymous, eq_iff g.user_id "")))
            (inl (ground (arith, anonymous, eq_iff g.user_id "")))
      | inr named ↦ owned new (ground (arith, named, eq_iff g.user_id ""))
    ]
  ]
    where
      plain :
          a.games g.id ≡ none
          → (g.user_id ≡ "") ⊎ ((row : UserRow fl) × (a.users g.user_id ≡ some row))
          → Unrated g
          → Verdict false fuel g a (save_finished fl false fuel g a)
      plain new o u =
          stored fuel g a (put_game fl g a) new o (rate-Unrated fuel g (put_game fl g a) u)
            (untouched u refl)

      owned :
          a.games g.id ≡ none
          → g.user_id ≢ ""
          → Verdict false fuel g a (save_finished fl false fuel g a)
      owned new own = elim (Option-cases (a.users g.user_id)) [
        | inl gone ↦ orphan refl new own gone (refused fuel g a new (owner_gone g a own gone))
        | inr (row, there) ↦ elim (Bool-cases g.rated) [
          | inr unrated ↦ plain new (inr (row, there)) (inr (inl unrated))
          | inl rated ↦ elim (Option-cases (score_for g)) [
            | inl unscored ↦
                plain new (inr (row, there)) (inr (inr (score_for-undecided fl g unscored)))
            | inr (s, decided) ↦
                rated_verdict fuel g s a row
                  (update fl fuel row.glicko (bot_result fl s g.level ∷ [])) new own rated decided
                  there refl
          ]
        ]
      ]
