-- ===== src/Store/Games/Races.antt =====
-- Any number of clients (api and worker processes) that read, edit and write one game in any
-- interleaving. A write bumps the revision; Redis compares revisions as Lua numbers, which are exact below 2 ^ 53.
use blundernet.Base.{
  ℕ, ◌+◌, ◌^◌, ◌≤◌, ◌<◌, ◌≡◌, ◌≢◌, refl, sym, subst, String, eq_iff, Bool, true, false, Option,
  none, some, arith, ◌==◌, if◌then◌else◌, Option-cases, inl, inr, ◌⊎◌, ◌&&◌, Bool-cases, ◌↔◌,
}
use blundernet.Errors.{ok, err, conflict}
use blundernet.Game.{Game}
use blundernet.Store.Games.{Db, put, u64, cas_allows, write, update, get, expire}

-- `held c` is the copy of the game that client `c` read last.
pub record System : Type 0 where
  pub db : Db
  pub held : ℕ → Option Game

module _ (id : String) where
  -- A client reads the game, writes its copy back edited, or the key runs out. An edit keeps the
  -- id and the revision that were read (Api/Edits: every handler's edit does).
  pub data Step : System → System → Type 0 where
    reads :
        (s : System) (c : ℕ) (g : Game)
        → get false id s.db ≡ ok g
        → Step s (record s { held = λ j. if c == j then some g else s.held j })
    writes :
        (s : System) (c : ℕ) (g g' : Game)
        → s.held c ≡ some g
        → g'.id ≡ id
        → g'.revision ≡ g.revision
        → g.revision + 1 < 2 ^ 53
        → Step s (record s { db = (update false g' g.ply s.db).0 })
    expires : (s : System) → Step s (record s { db = expire id s.db })

  pub data Reach (s : System) : System → Type 0 where
    here : Reach s s
    next : {t u : System} → Reach s t → Step t u → Reach s u

  -- A copy is no newer than the stored game, and is it if the revisions agree.
  abbrev pub Behind : Option Game → Game → Type 0
  Behind none g = Unit {0}
  Behind (some cur) g = (g.revision ≤ cur.revision) × (g.revision ≡ cur.revision → g ≡ cur)

  abbrev pub AllBehind : System → Type 0
  AllBehind s = (c : ℕ) (g : Game) → s.held c ≡ some g → Behind (s.db id) g

  put_self : (db : Db) (e : Option Game) → put db id e id ≡ e
  put_self db e = ground (arith, eq_iff id id)

  abbrev bumped : Game → Game
  bumped g = record g { revision = g.revision + 1 }

  -- A write goes through exactly when the stored game has the ply and the revision expected.
  abbrev Written : Db → Game → ℕ → Type 0
  Written db g ply =
      (cur : Game) × (db id ≡ some cur)
      × (cur.ply ≡ ply)
      × (cur.revision ≡ g.revision)
      × (update false g ply db ≡ (put db id (some (bumped g)), ok (bumped g)))

  abbrev Refused : Db → Game → ℕ → Type 0
  Refused db g ply =
      (update false g ply db ≡ (db, err conflict))
      × ((cur : Game) → db id ≡ some cur → cur.ply ≡ ply → cur.revision ≢ g.revision)

  u64_small : (n : ℕ) → n < 2 ^ 64 → u64 n ≡ n
  u64_small n h = omega arith

  allows :
      (cur g : Game) (ply : ℕ) (b : Bool)
      → ((cur.ply == ply) && (cur.revision == g.revision)) ≡ b
      → cas_allows (some cur) (some ply) g.revision ≡ b
  unfolding cas_allows
  allows cur g ply b h = ground arith

  pub update-cases :
      (db : Db) (g : Game) (ply : ℕ)
      → g.id ≡ id
      → g.revision + 1 < 2 ^ 53
      → Written db g ply ⊎ Refused db g ply
  unfolding cas_allows
  update-cases db g ply i small = elim (Option-cases (db id)) [
    | inl gone ↦ inr (unfold update write in rw (i, gone) refl, λ cur e. absurd (ground arith))
    | inr (cur, e) ↦ elim (Bool-cases ((cur.ply == ply) && (cur.revision == g.revision))) [
      | inl same ↦ inl (
        cur,
        e,
        ground arith,
        ground arith,
        unfold update write in
            rw (i, e, allows cur g ply true same, u64_small (g.revision + 1) (omega arith)) refl,
      )
      | inr differ ↦ inr (
        unfold update write in rw (i, e, allows cur g ply false differ) refl,
        λ c f p q. ground arith,
      )
    ]
  ]

  Behind-write :
      (db : Db) (g g' p : Game)
      → g'.id ≡ id
      → g'.revision ≡ g.revision
      → g.revision + 1 < 2 ^ 53
      → Behind (db id) p
      → Behind ((update false g' g.ply db).0 id) p
  Behind-write db g g' p i r small h = elim (update-cases db g' g.ply i (omega arith)) [
    | inl (cur, e, same, rev, w) ↦
        rw (w, put_self db (some (bumped g'))) (behind cur rev (rw e at h))
    | inr (w, _) ↦ rw w h
  ]
    where
      behind :
          (cur : Game)
          → cur.revision ≡ g'.revision
          → Behind (some cur) p
          → Behind (some (bumped g')) p
      behind cur rev b = (omega (arith, b.0), λ q. absurd (omega (arith, b.0)))

  Behind-self : (g : Game) → Behind (some g) g
  Behind-self g = (omega arith, λ _. refl)

  read-Behind : (db : Db) (g : Game) → get false id db ≡ ok g → db id ≡ some g
  unfolding get
  read-Behind db g e = ground arith

  pub Step-AllBehind : {s t : System} → Step s t → AllBehind s → AllBehind t
  Step-AllBehind (reads s c g e) h j p q = elim (Bool-cases (c == j)) [
    | inl mine ↦
        let same : g ≡ p = ground arith in
        rw (read-Behind s.db g e) (subst (λ x. Behind (some g) x) same (Behind-self g))
    | inr others ↦ h j p (ground arith)
  ]
  Step-AllBehind (writes s c g g' hold i r small) h j p q =
      Behind-write s.db g g' p i r small (h j p q)
  Step-AllBehind (expires s) h j p q = unfold expire in rw (put_self s.db none) tt

  pub Reach-AllBehind : {s t : System} → AllBehind s → Reach s t → AllBehind t
  Reach-AllBehind h here = h
  Reach-AllBehind h (next r st) = Step-AllBehind st (Reach-AllBehind h r)

  -- Any number of clients read one game, edit their copies and write them back in any order, and
  -- the key may run out; no client holds a copy at the start. Then a client's write is accepted
  -- exactly when the copy that it read is the game that is stored now, as long as the revision
  -- is below 2 ^ 53 - 1 and the edit keeps the id and the revision that were read: no update is
  -- lost and none is refused without cause.
  pub update_iff_current :
      {start s : System} (c : ℕ) (g g' : Game)
      → ((j : ℕ) → start.held j ≡ none)
      → Reach start s
      → s.held c ≡ some g
      → g'.id ≡ id
      → g'.revision ≡ g.revision
      → g.revision + 1 < 2 ^ 53
      → ((w : Game) × ((update false g' g.ply s.db).1 ≡ ok w)) ↔ (s.db id ≡ some g)
  update_iff_current {start} {s} c g g' empty run hold i r small = (
    λ (w, e). ground (arith, update-cases s.db g' g.ply i, behind),
    λ e. elim (update-cases s.db g' g.ply i small') [
      | inl (cur, _, _, _, w) ↦ (bumped g', rw w refl)
      | inr (_, refused) ↦ absurd (refused g e refl (sym r))
    ],
  )
    where
      small' : g'.revision + 1 < 2 ^ 53
      small' = omega arith

      behind : Behind (s.db id) g
      behind = Reach-AllBehind (λ j p e. absurd (ground (arith, empty j))) run c g hold
