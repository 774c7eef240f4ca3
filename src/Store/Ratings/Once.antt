-- ===== src/Store/Ratings/Once.antt =====
-- Archiving a finished game once, and what it may change.
use blundernet.Base.{
  ℕ, ◌+◌, ◌≡◌, ◌≢◌, ◌≤◌, refl, ap, ◌∙◌, String, eq_iff, Bool, true, false, none, some, arith,
  Option-cases, Bool-cases, inl, inr, ◌⊎◌,
}
use blundernet.Base.Int.{ℤ, ◌-ℤ◌}
use blundernet.Errors.{ok, err, Error}
use blundernet.Float.{Float64}
use blundernet.Game.{Game}
use blundernet.Store.Ratings.{
  Score, loss, half, win, score_for, ladder_step, UserRow, Archive, put_user, put_game,
  apply_rating, move_ladder, rate, owner_exists, save_finished,
}

-- A result keeps a ladder rung that is between 1 and 6 in that range and moves it by at most
-- one.
pub ladder_step_bounds :
    (s : Score) (n : ℕ)
    → 1 ≤ n
    → n ≤ 6
    → (1 ≤ ladder_step s n)
      × (ladder_step s n ≤ 6)
      × (ladder_step s n ≤ n + 1)
      × (n ≤ ladder_step s n + 1)
unfolding ladder_step ◌-ℤ◌
ladder_step_bounds loss n h k = ground arith
ladder_step_bounds half n h k = ground arith
ladder_step_bounds win n h k = ground arith

module _ (fl : Float64) where
  -- A call that succeeds was made on an archive that had the game already, or on one that did not
  -- and has it now, with the owner rated.
  abbrev Saved : ℕ → Game → Archive fl → Archive fl → Type 0
  Saved fuel g a b =
      ((old : Game) × (a.games g.id ≡ some old) × (b ≡ a))
      ⊎ ((a.games g.id ≡ none)
          × (owner_exists fl g a ≡ true)
          × (rate fl fuel g (put_game fl g a) ≡ some b))

  pub save_finished-Saved :
      (lost : Bool) (fuel : ℕ) (g : Game) (a : Archive fl)
      → (save_finished fl lost fuel g a).1 ≡ ok tt
      → Saved fuel g a (save_finished fl lost fuel g a).0
  unfolding save_finished
  save_finished-Saved true fuel g a e = cc
  save_finished-Saved false fuel g a e = elim (Option-cases (a.games g.id)) [
    | inr (old, was) ↦ inl (old, was, ground arith)
    | inl new ↦ elim (Bool-cases (owner_exists fl g a)) [
      | inr gone ↦ absurd (ground arith)
      | inl there ↦ elim (Option-cases (rate fl fuel g (put_game fl g a))) [
        | inl stuck ↦ absurd (ground arith)
        | inr (b, rated) ↦ inr (new, there, rated ∙ ap some (ground arith))
      ]
    ]
  ]

  -- If archiving a game fails, for whatever reason, the archive and the accounts are as they
  -- were.
  pub save_finished_error :
      (lost : Bool) (fuel : ℕ) (g : Game) (a : Archive fl) (e : Error)
      → (save_finished fl lost fuel g a).1 ≡ err e
      → (save_finished fl lost fuel g a).0 ≡ a
  unfolding save_finished
  save_finished_error lost fuel g a e h = ground arith

  apply_rating-games :
      (fuel : ℕ) (id : String) (s : Score) (level : ℤ) (a b : Archive fl)
      → apply_rating fl fuel id s level a ≡ some b
      → b.games ≡ a.games
  unfolding apply_rating
  apply_rating-games fuel id s level a b e = ground arith

  move_ladder-games :
      (id : String) (s : Score) (a : Archive fl) → (move_ladder fl id s a).games ≡ a.games
  unfolding move_ladder
  move_ladder-games id s a = ground arith

  pub rate-games :
      (fuel : ℕ) (g : Game) (a b : Archive fl) → rate fl fuel g a ≡ some b → b.games ≡ a.games
  unfolding rate
  rate-games fuel g a b e = elim (Option-cases (score_for g)) [
    | inl undecided ↦ ground arith
    | inr (s, decided) ↦ elim (Option-cases (apply_rating fl fuel g.user_id s g.level a)) [
      | inl stuck ↦ ground arith
      | inr (c, rated) ↦ ground (
        arith,
        apply_rating-games fuel g.user_id s g.level a c rated,
        move_ladder-games g.user_id s c,
      )
    ]
  ]

  -- If archiving a game succeeds, then archiving it again, from any process and with the
  -- database up, succeeds and changes nothing: a result is rated once.
  pub save_finished_twice :
      (lost : Bool) (fuel again : ℕ) (g : Game) (a : Archive fl)
      → (save_finished fl lost fuel g a).1 ≡ ok tt
      → let b = (save_finished fl lost fuel g a).0 in save_finished fl false again g b ≡ (b, ok tt)
  save_finished_twice lost fuel again g a e =
      let (old, there) = stored (save_finished-Saved lost fuel g a e) in
      unfold save_finished in rw there refl
    where
      stored :
          Saved fuel g a (save_finished fl lost fuel g a).0
          → (old : Game) × ((save_finished fl lost fuel g a).0.games g.id ≡ some old)
      stored (inl (old, was, same)) = (old, rw same was)
      stored (inr (_, _, rated)) =
          (g, rw (rate-games fuel g (put_game fl g a) _ rated) (ground (arith, eq_iff g.id g.id)))

  pub put_user_ne :
      (id user : String) (row : UserRow fl) (a : Archive fl)
      → user ≢ id
      → (put_user fl id row a).users user ≡ a.users user
  put_user_ne id user row a ne = ground (arith, eq_iff id user)

  apply_rating-others :
      (fuel : ℕ) (id user : String) (s : Score) (level : ℤ) (a b : Archive fl)
      → user ≢ id
      → apply_rating fl fuel id s level a ≡ some b
      → b.users user ≡ a.users user
  unfolding apply_rating
  apply_rating-others fuel id user s level a b ne e = ground (arith, eq_iff id user)

  move_ladder-others :
      (id user : String) (s : Score) (a : Archive fl)
      → user ≢ id
      → (move_ladder fl id s a).users user ≡ a.users user
  unfolding move_ladder
  move_ladder-others id user s a ne = ground (arith, eq_iff id user)

  pub rate-others :
      (fuel : ℕ) (g : Game) (a b : Archive fl) (user : String)
      → (user ≢ g.user_id) ⊎ (g.rated ≡ false)
      → rate fl fuel g a ≡ some b
      → b.users user ≡ a.users user
  unfolding rate
  rate-others fuel g a b user (inr unrated) e = ground arith
  rate-others fuel g a b user (inl ne) e = elim (Option-cases (score_for g)) [
    | inl undecided ↦ ground arith
    | inr (s, decided) ↦ elim (Option-cases (apply_rating fl fuel g.user_id s g.level a)) [
      | inl stuck ↦ ground arith
      | inr (c, rated) ↦ ground (
        arith,
        apply_rating-others fuel g.user_id user s g.level a c ne rated,
        move_ladder-others g.user_id user s c ne,
      )
    ]
  ]

  -- Archiving a game, whether it succeeds or not, leaves the account of everyone but its owner
  -- as it was, and leaves every account as it was if the game is not rated.
  pub save_finished_others :
      (lost : Bool) (fuel : ℕ) (g : Game) (a : Archive fl) (user : String)
      → (user ≢ g.user_id) ⊎ (g.rated ≡ false)
      → (save_finished fl lost fuel g a).0.users user ≡ a.users user
  unfolding save_finished
  save_finished_others lost fuel g a user other =
      elim (Option-cases (rate fl fuel g (put_game fl g a))) [
        | inl stuck ↦ ground arith
        | inr (b, rated) ↦ ground (arith, rate-others fuel g (put_game fl g a) b user other rated)
      ]
