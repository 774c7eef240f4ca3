-- ===== src/Store/Games/Answers.antt =====
-- The two answers of a write.
use blundernet.Base.{
  ℕ, ◌≡◌, refl, eq_iff, Bool, true, false, none, some, Option, ◌⊎◌, inl, inr, arith, Bool-cases,
  Option-cases,
}
use blundernet.Errors.{Except, ok, err, Error, conflict, backend}
use blundernet.Game.{Game}
use blundernet.Store.Games.{Db, put, bump, cas_allows, write, create, update}

-- The bumped copy is stored and handed back, or nothing happens.
abbrev pub Answers : Db → Game → Db × Except Game → Type 0
Answers db g p =
    (p ≡ (put db g.id (some (bump g)), ok (bump g))) ⊎ ((e : Error) × (p ≡ (db, err e)))

pub write-Answers :
    (lost : Bool) (g : Game) (expected : Option ℕ) (db : Db)
    → Answers db g (write lost g expected db)
unfolding write
write-Answers true g expected db = inr (backend, refl)
write-Answers false g expected db = elim (Bool-cases (cas_allows (db g.id) expected g.revision)) [
  | inl allowed ↦ inl (rw (write, allowed) refl)
  | inr stale ↦ inr (conflict, rw (write, stale) refl)
]

pub update-Answers :
    (lost : Bool) (g : Game) (ply : ℕ) (db : Db) → Answers db g (update lost g ply db)
unfolding update
update-Answers lost g ply db = write-Answers lost g (some ply) db

pub put_self : (db : Db) (g : Game) → put db g.id (some g) g.id ≡ some g
put_self db g = ground (arith, eq_iff g.id g.id)

-- A game is created under an id that no game has.
pub create-Answers :
    (lost : Bool) (g : Game) (db : Db)
    → ((db g.id ≡ none) × (create lost g db ≡ (put db g.id (some (bump g)), ok (bump g))))
      ⊎ ((e : Error) × (create lost g db ≡ (db, err e)))
unfolding create cas_allows write
create-Answers true g db = inr (backend, refl)
create-Answers false g db = elim (Option-cases (db g.id)) [
  | inl free ↦ inl (free, rw (write, free) refl)
  | inr (old, taken) ↦ inr (conflict, rw (write, taken) refl)
]

-- A write of an edit of the stored game is refused only if the call is lost.
pub update_current :
    (lost : Bool) (g g' : Game) (db : Db)
    → db g'.id ≡ some g
    → g'.revision ≡ g.revision
    → (update lost g' g.ply db ≡ (put db g'.id (some (bump g')), ok (bump g')))
      ⊎ (update lost g' g.ply db ≡ (db, err backend))
unfolding update cas_allows write
update_current true g g' db e r = inr refl
update_current false g g' db e r = inl (rw (write, allowed) refl)
  where
    allowed : cas_allows (db g'.id) (some g.ply) g'.revision ≡ true
    allowed = rw e (ground arith)
