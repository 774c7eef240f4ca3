-- ===== src/Api/Accounts/Recovered.antt =====
-- handleRecover of internal/httpapi/auth.go signs everybody else out of the account: the sessions'
-- index finds them all.
use blundernet.Base.{
  ℕ, ◌<◌, ◌≡◌, ◌≢◌, sym, subst, ◌∙◌, Text, String, eq_iff, Bool, true, false, List, Option, none,
  some, if◌then◌else◌, if-cases, arith,
}
use blundernet.Errors.{Except}
use blundernet.Store.Sessions.{
  Entry, fresh, Sessions, has, members, create, store, revoke, destroy_all_for,
}
use blundernet.Store.Sessions.Index.{Indexed, has-members_live}
use blundernet.Store.Users.{Answer, done, refused, User, Account, Random, recover_with_code}
use blundernet.Api.Accounts.{
  Recovery, Reply, recover_status, Accounts, Faults, fails, destroy_token, after_create,
  start_session, after_recover, handle_recover, is_password,
}
use blundernet.Api.Accounts.Rotation.{Live, destroy_token-Live}

fresh-live :
    (now : ℕ) (o : Option (Entry String)) (e : Entry String)
    → fresh now o ≡ some e
    → (o ≡ some e) × (now < e.expires)
fresh-live now none e h = ground arith
fresh-live now (some x) e h = (ground (arith, h), ground (arith, h))

unlisted :
    {b : Bool} (now : ℕ) (o : Option (Entry String)) (e : Entry String)
    → fresh now (if b then none else o) ≡ some e
    → (b ≡ false) × (fresh now o ≡ some e)
unlisted now o e h = (ground (arith, h), ground (arith, h))

module _ (ttl : ℕ) (owner : String → String) where
  -- A session that outlives the revocation of a user is another user's.
  revoke-others :
      (now : ℕ) (user j : String) (s : Sessions) (e : Entry String)
      → Indexed ttl owner now s
      → Live now j (revoke now user s) e
      → e.value ≢ user
  unfolding revoke
  revoke-others now user j s e indexed live mine =
      let (off, was) = unlisted now (s.sessions j) e live in
      let (at, l) = fresh-live now (s.sessions j) e was in
      let there = indexed.covered j e at l in
      let listed : has j (members (fresh now (s.index user))) ≡ true =
        subst (λ u. has j (members (fresh now (s.index u))) ≡ true) (sym there.0 ∙ mine)
          (has-members_live ttl owner now j e s l there) in
      ground (arith, off, listed)

  create-others :
      (lost : Bool) (now : ℕ) (k user j : String) (s : Sessions) (e : Entry String)
      → j ≢ k
      → Live now j (create ttl lost now k user s).0 e
      → Live now j s e
  unfolding create store
  create-others lost now k user j s e ne h = ground (arith, h, eq_iff k j, ne)

  -- What a request may leave of the sessions of the user that it answers.
  OnlyThis : ℕ → String → Accounts × Reply → Type 0
  OnlyThis now key x =
      (u : User) (j : String) (e : Entry String)
      → x.1.user ≡ some u
      → j ≢ key
      → Live now j x.0.sessions e
      → e.value ≢ u.id

  fails-OnlyThis :
      (now : ℕ) (key : String) (a : Accounts) (status : ℕ) → OnlyThis now key (a, fails status)
  unfolding OnlyThis
  fails-OnlyThis now key a status u j e h = ground arith

  start_session-OnlyThis :
      (f : Faults) (now : ℕ) (cookie : Option String) (key : String) (status : ℕ) (user : User)
      (recovery : Option Text) (a : Accounts)
      → ((j : String) (e : Entry String) → Live now j a.sessions e → e.value ≢ user.id)
      → OnlyThis now key (start_session ttl f now cookie key status user recovery a)
  unfolding OnlyThis start_session create
  start_session-OnlyThis f now cookie key status user recovery a others =
      if-cases f.create (λ x. OnlyThis now key (after_create ttl status user recovery a x))
        (λ _ u j e h. ground arith)
        (λ _ u j e h ne live same.
          others j e
            (destroy_token-Live ttl f now cookie j a.sessions e (
              create-others false now key user.id j (destroy_token ttl f now cookie a.sessions) e ne
                live))
            (same ∙ ground (arith, h)))

  module _ (derive : Text → Text → Text) where
    -- If handleRecover answers a user, the call that revokes the user's sessions does not fail,
    -- and before it the index of sessions misses no live session and lists no key of another
    -- user, then every session that is live afterwards is the new one or another user's.
    pub handle_recover-OnlyThis :
        (f : Faults) (now : ℕ) (cookie : Option String) (key : String) (random : Random derive)
        (body : Option Recovery) (a : Accounts)
        → f.revoke ≡ false
        → Indexed ttl owner now a.sessions
        → (u : User) (j : String) (e : Entry String)
        → (handle_recover ttl derive f now cookie key random body a).1.user ≡ some u
        → j ≢ key
        → Live now j (handle_recover ttl derive f now cookie key random body a).0.sessions e
        → e.value ≢ u.id
    unfolding handle_recover OnlyThis destroy_all_for
    handle_recover-OnlyThis f now cookie key random none a fine indexed =
        fails-OnlyThis now key a 400
    handle_recover-OnlyThis f now cookie key random (some b) a fine indexed =
        if-cases (is_password b.password) (OnlyThis now key)
          (λ _.
            after (recover_with_code derive f.users now b.username b.code b.password random a.rows))
          (λ _. fails-OnlyThis now key a 400)
      where
        after :
            (x : List Account × Answer (User × Text))
            → OnlyThis now key (after_recover ttl derive f now cookie key a x)
        after (rows, refused e) =
            fails-OnlyThis now key (record a { rows = rows }) (recover_status ttl derive e)
        after (rows, done (u, next)) =
            start_session-OnlyThis f now cookie key 200 u (some next)
              (record { rows = rows; sessions = (destroy_all_for f.revoke now u.id a.sessions).0 })
              (λ j e live.
                if-cases f.revoke
                  (λ (x : Sessions × Except (Unit {0})). Live now j x.0 e → e.value ≢ u.id)
                  (λ bad _ _. ground (arith, bad, fine))
                  (λ _. revoke-others now u.id j a.sessions e indexed) live)
