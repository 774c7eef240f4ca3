-- ===== src/Store/Sessions/Index.antt =====
-- The index of internal/store/sessions.go never misses a live session.
use blundernet.Base.{
  ℕ, ◌+◌, ◌≡◌, ◌≢◌, ◌≤◌, ◌<◌, refl, sym, subst, ◌∙◌, ap, String, str_eq, eq_iff, true, false, not,
  List, [], ◌∷◌, Option, none, some, keep, arith, Bool-cases, Option-cases, inl, inr,
}
use blundernet.Store.Sessions.{
  Entry, fresh, Sessions, has, members, put_session, add_key, store, extend, refresh, forget,
  revoke,
}
use blundernet.Store.Sessions.Spec.{Write, stores, refreshes, forgets, revokes, run_write}

has-keep :
    (k j : String) (xs : List String) → j ≢ k → has j (keep (λ x. not (str_eq x k)) xs) ≡ has j xs
has-keep k j [] ne = refl
has-keep k j (x ∷ xs) ne = ground (arith, has-keep k j xs ne, eq_iff x k, eq_iff x j)

has-keep_le :
    (k j : String) (xs : List String)
    → has j (keep (λ x. not (str_eq x k)) xs) ≡ true
    → has j xs ≡ true
has-keep_le k j [] h = h
has-keep_le k j (x ∷ xs) h = ground (arith, has-keep_le k j xs)

pub has-members-fresh :
    (now : ℕ) (k : String) (o : Option (Entry (List String)))
    → has k (members (fresh now o)) ≡ true
    → (i : Entry (List String)) × (o ≡ some i) × (has k i.value ≡ true)
has-members-fresh now k none h = cc
has-members-fresh now k (some i) h = (i, refl, ground (arith, h))

module _ (ttl : ℕ) (owner : String → String) where
  -- A live session is its owner's, and is in the owner's index, which lives as long.
  abbrev pub InIndex : ℕ → Sessions → String → Entry String → Type 0
  InIndex now s k e =
      (e.value ≡ owner k)
      × (i : Entry (List String)) × (s.index (owner k) ≡ some i)
      × (has k i.value ≡ true)
      × (e.expires ≤ i.expires)

  pub record Indexed (now : ℕ) (s : Sessions) : Type 0 where
    pub timely : (k : String) (e : Entry String) → s.sessions k ≡ some e → e.expires ≤ now + ttl
    pub covered :
        (k : String) (e : Entry String)
        → s.sessions k ≡ some e
        → now < e.expires
        → InIndex now s k e
    pub owned :
        (user k : String) (i : Entry (List String))
        → s.index user ≡ some i
        → has k i.value ≡ true
        → owner k ≡ user

  pub Indexed-later : (now later : ℕ) (s : Sessions) → now ≤ later → Indexed now s → Indexed later s
  Indexed-later now later s le h = record {
    timely = λ k e p. omega (arith, h.timely k e p);
    covered = λ k e p l. h.covered k e p (omega arith);
    owned = h.owned;
  }

  -- An entry that is put in place of a key's, and the key put into its owner's index.
  enter : ℕ → String → Option (Entry String) → Sessions → Sessions
  enter now k o s = add_key ttl now (owner k) k (put_session k o s)

  add_key-InIndex :
      (now : ℕ) (k j : String) (e : Entry String) (s : Sessions)
      → now < e.expires
      → e.expires ≤ now + ttl
      → InIndex now s j e
      → InIndex now (add_key ttl now (owner k) k s) j e
  add_key-InIndex now k j e s l near (v, i, p, q, r) =
      elim (Bool-cases (str_eq (owner k) (owner j))) [
        | inr other ↦ (v, i, rw other p, q, r)
        | inl mine ↦
            let same : owner k ≡ owner j = (eq_iff (owner k) (owner j)).0 mine in
            (
              v,
              record { value = k ∷ i.value; expires = now + ttl },
              rw (mine, same, p) (ground (arith, l, r)),
              ground (arith, q),
              near,
            )
      ]

  Indexed-enter :
      (now : ℕ) (k : String) (o : Option (Entry String)) (s : Sessions)
      → ((e : Entry String) → o ≡ some e → (e.value ≡ owner k) × (e.expires ≤ now + ttl))
      → Indexed now s
      → Indexed now (enter now k o s)
  unfolding enter
  Indexed-enter now k o s mine h = record { timely = timely; covered = covered; owned = owned }
    where
      timely :
          (j : String) (e : Entry String)
          → (enter now k o s).sessions j ≡ some e
          → e.expires ≤ now + ttl
      timely j e p = elim (Bool-cases (str_eq k j)) [
        | inl same ↦ (mine e (ground (arith, p, same))).1
        | inr other ↦ h.timely j e (ground (arith, p, other))
      ]

      covered :
          (j : String) (e : Entry String)
          → (enter now k o s).sessions j ≡ some e
          → now < e.expires
          → InIndex now (enter now k o s) j e
      covered j e p l = elim (Bool-cases (str_eq k j)) [
        | inl same ↦
            let kj : k ≡ j = (eq_iff k j).0 same in
            let (v, near) = mine e (ground (arith, p, same)) in
            (
              v ∙ ap owner kj,
              record { value = k ∷ members (fresh now (s.index (owner k))); expires = now + ttl },
              ground (arith, eq_iff (owner k) (owner j), ap owner kj),
              ground (arith, same),
              near,
            )
        | inr other ↦
            add_key-InIndex now k j e s l (h.timely j e (ground (arith, p, other)))
              (h.covered j e (ground (arith, p, other)) l)
      ]

      owned :
          (user j : String) (i : Entry (List String))
          → (enter now k o s).index user ≡ some i
          → has j i.value ≡ true
          → owner j ≡ user
      owned user j i p q = elim (Bool-cases (str_eq (owner k) user)) [
        | inr other ↦ h.owned user j i (ground (arith, p, other)) q
        | inl here ↦
            let ku : owner k ≡ user = (eq_iff (owner k) user).0 here in
            elim (Bool-cases (str_eq k j)) [
              | inl same ↦ ap owner (sym ((eq_iff k j).0 same)) ∙ ku
              | inr other ↦
                  let (i', p', q') =
                    has-members-fresh now j (s.index (owner k))
                      (ground (arith, p, q, here, other)) in
                  h.owned (owner k) j i' p' q' ∙ ku
            ]
      ]

  Indexed-forget :
      (now : ℕ) (k : String) (s : Sessions) → Indexed now s → Indexed now (forget k (owner k) s)
  unfolding forget
  Indexed-forget now k s h = record {
    timely = λ j e p. h.timely j e (ground (arith, p));
    covered = covered;
    owned = owned;
  }
    where
      covered :
          (j : String) (e : Entry String)
          → (forget k (owner k) s).sessions j ≡ some e
          → now < e.expires
          → InIndex now (forget k (owner k) s) j e
      covered j e p l =
          let away : str_eq k j ≡ false = ground (arith, p) in
          let (v, i, at, q, r) = h.covered j e (ground (arith, p)) l in
          elim (Bool-cases (str_eq (owner k) (owner j))) [
            | inr other ↦ (v, i, rw other at, q, r)
            | inl mine ↦
                let same : owner k ≡ owner j = (eq_iff (owner k) (owner j)).0 mine in
                (
                  v,
                  record i { value = keep (λ x. not (str_eq x k)) i.value },
                  rw (mine, same, at) refl,
                  has-keep k j i.value (λ jk. absurd (ground (arith, away, eq_iff k j, jk))) ∙ q,
                  r,
                )
          ]

      owned :
          (user j : String) (i : Entry (List String))
          → (forget k (owner k) s).index user ≡ some i
          → has j i.value ≡ true
          → owner j ≡ user
      owned user j i p q = elim (Bool-cases (str_eq (owner k) user)) [
        | inr other ↦ h.owned user j i (ground (arith, p, other)) q
        | inl mine ↦ elim (Option-cases (s.index (owner k))) [
          | inl gone ↦ absurd (ground (arith, p, mine, gone))
          | inr (i', at) ↦
              h.owned (owner k) j i' at (has-keep_le k j i'.value (ground (arith, p, q, mine, at)))
              ∙ (eq_iff (owner k) user).0 mine
        ]
      ]

  -- A live session's key is among the keys that are revoked with its user.
  pub has-members_live :
      (now : ℕ) (k : String) (e : Entry String) (s : Sessions)
      → now < e.expires
      → InIndex now s k e
      → has k (members (fresh now (s.index (owner k)))) ≡ true
  has-members_live now k e s l (v, i, p, q, r) = ground (arith, p, q, r, l)

  Indexed-revoke :
      (now : ℕ) (user : String) (s : Sessions) → Indexed now s → Indexed now (revoke now user s)
  unfolding revoke
  Indexed-revoke now user s h = record {
    timely = λ j e p. h.timely j e (ground (arith, p));
    covered = covered;
    owned = λ other j i p q. h.owned other j i (ground (arith, p)) q;
  }
    where
      covered :
          (j : String) (e : Entry String)
          → (revoke now user s).sessions j ≡ some e
          → now < e.expires
          → InIndex now (revoke now user s) j e
      covered j e p l =
          let there = h.covered j e (ground (arith, p)) l in
          let (v, i, at, q, r) = there in
          elim (Bool-cases (str_eq user (owner j))) [
            | inr other ↦ (v, i, rw other at, q, r)
            | inl mine ↦ absurd (
                ground (
                  arith,
                  p,
                  subst (λ u. has j (members (fresh now (s.index u))) ≡ true)
                      (sym ((eq_iff user (owner j)).0 mine)) (has-members_live now j e s l there),
                ))
          ]

  extend-fresh :
      (now : ℕ) (o : Option (Entry String)) (e : Entry String)
      → extend ttl now (fresh now o) ≡ some e
      → (old : Entry String) × (o ≡ some old)
        × (now < old.expires)
        × (e.value ≡ old.value)
        × (e.expires ≡ now + ttl)
  extend-fresh now none e p = cc
  extend-fresh now (some old) e p =
      (old, refl, ground (arith, p), ground (arith, p), ground (arith, p))

  pub Indexed-run_write :
      (now : ℕ) (w : Write) (s : Sessions)
      → Indexed now s
      → Indexed now (run_write ttl owner now w s)
  unfolding run_write store refresh enter
  Indexed-run_write now (stores k) s h =
      Indexed-enter now k (some (record { value = owner k; expires = now + ttl })) s
        (λ e p. (ground (arith, p), ground (arith, p))) h
  Indexed-run_write now (refreshes k) s h =
      Indexed-enter now k (extend ttl now (fresh now (s.sessions k))) s
        (λ e p.
          let (old, at, l, v, x) = extend-fresh now (s.sessions k) e p in
          (v ∙ (h.covered k old at l).0, omega (arith, x)))
        h
  Indexed-run_write now (forgets k) s h = Indexed-forget now k s h
  Indexed-run_write now (revokes user) s h = Indexed-revoke now user s h
