-- ===== src/Store/Sessions/Refine.antt =====
-- The sessions of internal/store/sessions.go with their index do what the specification without one
-- says.
use blundernet.Base.{
  ℕ, ◌+◌, ◌≡◌, ◌≤◌, ◌<◌, refl, sym, subst, ◌∙◌, ap, String, str_eq, eq_iff, true, List, [], ◌∷◌,
  Option, none, some, arith, Bool-cases, Option-cases, inl, inr,
}
use blundernet.Store.Sessions.{Entry, fresh, Sessions, has, members, store, refresh, forget, revoke}
use blundernet.Store.Sessions.Spec.{
  Write, stores, refreshes, forgets, revokes, SignedIn, unless_of, spec_write, run_write, spec_run,
  run,
}
use blundernet.Store.Sessions.Index.{
  Indexed, Indexed-later, Indexed-run_write, has-members-fresh, has-members_live,
}

module _ (ttl : ℕ) (owner : String → String) where
  -- The same users are signed in by the same keys, for as long.
  abbrev pub Same : ℕ → Sessions → SignedIn → Type 0
  Same now s a = (k : String) → fresh now (s.sessions k) ≡ fresh now (a k)

  fresh-fresh :
      (now later : ℕ) (o : Option (Entry String))
      → now ≤ later
      → fresh later (fresh now o) ≡ fresh later o
  fresh-fresh now later none le = refl
  fresh-fresh now later (some e) le = ground arith

  Same-later :
      (now later : ℕ) (s : Sessions) (a : SignedIn) → now ≤ later → Same now s a → Same later s a
  Same-later now later s a le h k =
      sym (fresh-fresh now later (s.sessions k) le)
      ∙ ap (fresh later) (h k)
      ∙ fresh-fresh now later (a k) le

  fresh-unless_of :
      (now : ℕ) (user : String) (o : Option (Entry String))
      → fresh now (unless_of user o) ≡ unless_of user (fresh now o)
  fresh-unless_of now user none = refl
  fresh-unless_of now user (some e) = ground arith

  fresh-some :
      (now : ℕ) (o : Option (Entry String)) (e : Entry String)
      → fresh now o ≡ some e
      → (o ≡ some e) × (now < e.expires)
  fresh-some now none e p = cc
  fresh-some now (some x) e p = (ground (arith, p), ground (arith, p))

  -- The index names exactly the live keys of a user.
  has-members-eq :
      (now : ℕ) (user k : String) (s : Sessions) (e : Entry String)
      → Indexed ttl owner now s
      → fresh now (s.sessions k) ≡ some e
      → has k (members (fresh now (s.index user))) ≡ str_eq user e.value
  has-members-eq now user k s e h p =
      let (at, l) = fresh-some now (s.sessions k) e p in
      let there = h.covered k e at l in
      elim (Bool-cases (str_eq user e.value)) [
        | inl mine ↦
            let uo : user ≡ owner k = (eq_iff user e.value).0 mine ∙ there.0 in
            subst (λ u. has k (members (fresh now (s.index u))) ≡ true) (sym uo)
              (has-members_live ttl owner now k e s l there)
            ∙ sym mine
        | inr other ↦ elim (Bool-cases (has k (members (fresh now (s.index user))))) [
          | inr absent ↦ absent ∙ sym other
          | inl listed ↦
              let (i, at', q) = has-members-fresh now k (s.index user) listed in
              absurd (ground (arith, other, eq_iff user e.value, there.0, h.owned user k i at' q))
        ]
      ]

  revoked-eq :
      (now : ℕ) (user k : String) (s : Sessions) (a : SignedIn)
      → Indexed ttl owner now s
      → Same now s a
      → fresh now ((revoke now user s).sessions k) ≡ fresh now (unless_of user (a k))
  unfolding revoke
  revoked-eq now user k s a h same = elim (Option-cases (fresh now (s.sessions k))) [
    | inl gone ↦ ground (arith, gone, same k, fresh-unless_of now user (a k))
    | inr (e, at) ↦
        ground
          (arith, at, same k, fresh-unless_of now user (a k), has-members-eq now user k s e h at)
  ]

  Same-write :
      (now : ℕ) (w : Write) (s : Sessions) (a : SignedIn)
      → Indexed ttl owner now s
      → Same now s a
      → Same now (run_write ttl owner now w s) (spec_write ttl owner now w a)
  unfolding run_write spec_write store refresh forget
  Same-write now (stores k) s a h same j = ground (arith, same j)
  Same-write now (refreshes k) s a h same j = ground (arith, same j, same k)
  Same-write now (forgets k) s a h same j = ground (arith, same j)
  Same-write now (revokes user) s a h same j = revoked-eq now user j s a h same

  -- Sessions with their index do what a table of keys without an index does. Take Redis in a
  -- state where the index misses no live session and lists no key of another user, and a table
  -- that agrees with it on which keys are signed in, as whom and until when. Then after any
  -- sequence of the writes of Create, Lookup, Destroy and DestroyAllFor, each after any delay
  -- and each for the one user that its key is ever handed out to, the two agree again, and the
  -- index still misses no live session; revoking a user in the table signs out every key of that
  -- user.
  pub run_refines :
      (now : ℕ) (ws : List (ℕ × Write)) (s : Sessions) (a : SignedIn)
      → Indexed ttl owner now s
      → Same now s a
      → let (end, s') = run ttl owner now ws s in
        let (end', a') = spec_run ttl owner now ws a in
        (end ≡ end') × Indexed ttl owner end s' × Same end s' a'
  unfolding run spec_run
  run_refines now [] s a h same = (refl, h, same)
  run_refines now ((delay, w) ∷ ws) s a h same =
      let later = now + delay in
      let h' = Indexed-later ttl owner now later s (omega arith) h in
      run_refines later ws (run_write ttl owner later w s) (spec_write ttl owner later w a)
        (Indexed-run_write ttl owner later w s h')
        (Same-write later w s a h' (Same-later now later s a (omega arith) same))
