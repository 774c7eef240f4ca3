-- ===== src/Api/Accounts/Rotation.antt =====
-- The session that internal/httpapi/auth.go starts replaces the one that the request came with.
use blundernet.Base.{
  ℕ, ◌+◌, ◌<◌, ◌≡◌, refl, sym, subst, Text, String, str_eq, eq_refl, Bool, true, false, List,
  Option, none, some, if-cases, arith,
}
use blundernet.Errors.{Except}
use blundernet.Store.Sessions.{Entry, fresh, Sessions, create, store, destroy, after_owner, forget}
use blundernet.Store.Users.{
  Answer, done, refused, User, Account, Random, recover_with_code, authenticate,
}
use blundernet.Api.Accounts.{
  Credentials, Recovery, Cookie, kept, cleared, set, Reply, Accounts, Faults, fails, destroy_token,
  after_create, start_session, after_signup, enrol, handle_signup, after_login, handle_login,
  after_recover, handle_recover, is_valid, is_password,
}

abbrev pub Live : ℕ → String → Sessions → Entry String → Type 0
Live now j s e = fresh now (s.sessions j) ≡ some e

-- A live session after Destroy was live before it.
destroy-Live :
    (owner undone : Bool) (now : ℕ) (k j : String) (s : Sessions) (e : Entry String)
    → Live now j (destroy owner undone now k s).0 e
    → Live now j s e
unfolding destroy
destroy-Live owner undone now k j s e =
    if-cases owner Kept (λ _ h. h) (λ _. of_owner (fresh now (s.sessions k)))
  where
    Kept : Sessions × Except (Unit {0}) → Type 0
    Kept x = Live now j x.0 e → Live now j s e

    forgotten : (u : String) → Live now j (forget k u s) e → Live now j s e
    forgotten u =
        unfold forget in
        if-cases (str_eq k j) (λ o. fresh now o ≡ some e → Live now j s e) (λ _ h. ground arith)
          (λ _ h. h)

    of_owner : (o : Option (Entry String)) → Kept (after_owner undone k s o)
    of_owner none h = h
    of_owner (some o) h = if-cases undone Kept (λ _ k. k) (λ _. forgotten o.value) h

destroy-gone :
    (now : ℕ) (k : String) (s : Sessions)
    → fresh now ((destroy false false now k s).0.sessions k) ≡ none
unfolding destroy
destroy-gone now k s = gone (fresh now (s.sessions k)) refl
  where
    gone :
        (o : Option (Entry String))
        → fresh now (s.sessions k) ≡ o
        → fresh now ((after_owner false k s o).0.sessions k) ≡ none
    gone none e = e
    gone (some o) e = unfold forget in rw (eq_refl k) refl

module _ (ttl : ℕ) where
  pub destroy_token-Live :
      (f : Faults) (now : ℕ) (cookie : Option String) (j : String) (s : Sessions) (e : Entry String)
      → Live now j (destroy_token ttl f now cookie s) e
      → Live now j s e
  destroy_token-Live f now none j s e h = h
  destroy_token-Live f now (some c) j s e h =
      if-cases (str_eq c "")
        (λ (o : Option String).
          Live now j
            (elim o as (λ _. Sessions) [
              | none ↦ s
              | some k ↦ (destroy f.owner f.destroy now k s).0
            ])
            e
          → Live now j s e)
        (λ _ k. k) (λ _. destroy-Live f.owner f.destroy now c j s e) h

  destroy_token-gone :
      (f : Faults) (now : ℕ) (c : String) (s : Sessions)
      → f.owner ≡ false
      → f.destroy ≡ false
      → str_eq c "" ≡ false
      → fresh now ((destroy_token ttl f now (some c) s).sessions c) ≡ none
  destroy_token-gone f now c s read undone named =
      if-cases (str_eq c "") Gone (λ bad. ground arith)
        (λ _.
          subst (λ b. fresh now ((destroy b f.destroy now c s).0.sessions c) ≡ none) (sym read)
            (subst (λ b. fresh now ((destroy false b now c s).0.sessions c) ≡ none) (sym undone)
              (destroy-gone now c s)))
    where
      Gone : Option String → Type 0
      Gone o =
          fresh now (
            (elim o as (λ _. Sessions) [
              | none ↦ s
              | some k ↦ (destroy f.owner f.destroy now k s).0
            ]).sessions
              c)
          ≡ none

  -- What a request that was given a session leaves.
  pub record Rotated (now : ℕ) (c key : String) (a : Accounts) (r : Reply) : Type 0 where
    pub given : r.cookie ≡ set key
    pub old : fresh now (a.sessions.sessions c) ≡ none
    pub signed_in :
        (u : User) × (r.user ≡ some u)
        × (fresh now (a.sessions.sessions key)
            ≡ some (record { value = u.id; expires = now + ttl }))

  abbrev pub sets : Cookie → Bool
  sets kept = false
  sets cleared = false
  sets (set k) = true

  module _ (f : Faults) (now : ℕ) (c key : String) (lives : 0 < ttl) (read : f.owner ≡ false)
      (undone : f.destroy ≡ false) (named : str_eq c "" ≡ false)
      (other : str_eq key c ≡ false) where
    abbrev Rotates : Accounts × Reply → Type 0
    Rotates x = sets x.1.cookie ≡ true → Rotated now c key x.0 x.1

    fails-Rotates : (a : Accounts) (status : ℕ) → Rotates (a, fails status)
    fails-Rotates a status h = ground arith

    start_session-Rotates :
        (status : ℕ) (user : User) (recovery : Option Text) (a : Accounts)
        → Rotates (start_session ttl f now (some c) key status user recovery a)
    unfolding start_session create store
    start_session-Rotates status user recovery a =
        if-cases f.create (λ x. Rotates (after_create ttl status user recovery a x))
          (λ _ h. ground arith)
          (λ _ _. record {
            given = refl;
            old = rw other (destroy_token-gone f now c a.sessions read undone named);
            signed_in = (user, refl, rw (eq_refl key) (ground arith));
          })

  -- The three handlers that may start a session.
  pub data Visit (derive : Text → Text → Text) : Type 0 where
    signs_up : Option User → String → Random derive → Option Credentials → Visit derive
    logs_in : Option Credentials → Visit derive
    recovers : Random derive → Option Recovery → Visit derive

  module _ (derive : Text → Text → Text) where
    unfoldable pub serve :
        Faults → ℕ → Option String → String → Visit derive → Accounts → Accounts × Reply
    serve f now cookie key (signs_up current id random body) a =
        handle_signup ttl derive f now cookie current id key random body a
    serve f now cookie key (logs_in body) a = handle_login ttl derive f now cookie key body a
    serve f now cookie key (recovers random body) a =
        handle_recover ttl derive f now cookie key random body a

    module _ (f : Faults) (now : ℕ) (c key : String) (lives : 0 < ttl) (read : f.owner ≡ false)
        (undone : f.destroy ≡ false) (named : str_eq c "" ≡ false)
        (other : str_eq key c ≡ false) where
      abbrev Good : Accounts × Reply → Type 0
      Good = Rotates f now c key lives read undone named other

      after_signup-Rotates :
          (random : Random derive) (a : Accounts) (x : List Account × Answer User)
          → Good (after_signup ttl derive f now (some c) key random a x)
      after_signup-Rotates random a (rows, refused e) =
          fails-Rotates f now c key lives read undone named other (record a { rows = rows }) _
      after_signup-Rotates random a (rows, done u) =
          start_session-Rotates f now c key lives read undone named other 201 u _ _

      after_login-Rotates :
          (a : Accounts) (r : Answer User) → Good (after_login ttl derive f now (some c) key a r)
      after_login-Rotates a (refused e) =
          fails-Rotates f now c key lives read undone named other a _
      after_login-Rotates a (done u) =
          start_session-Rotates f now c key lives read undone named other 200 u none a

      after_recover-Rotates :
          (a : Accounts) (x : List Account × Answer (User × Text))
          → Good (after_recover ttl derive f now (some c) key a x)
      after_recover-Rotates a (rows, refused e) =
          fails-Rotates f now c key lives read undone named other (record a { rows = rows }) _
      after_recover-Rotates a (rows, done (u, next)) =
          start_session-Rotates f now c key lives read undone named other 200 u (some next) _

      -- If sign-up, sign-in or recovery sets a cookie on a request that came with another token,
      -- and neither the read nor the pipeline of Destroy fails, then the old token signs nobody
      -- in any more, and the new one, which is the cookie, signs in the user that was answered,
      -- for as long as a session lasts.
      pub serve-Rotated :
          (visit : Visit derive) (a : Accounts)
          → sets (serve f now (some c) key visit a).1.cookie ≡ true
          → Rotated now c key
              (serve f now (some c) key visit a).0
              (serve f now (some c) key visit a).1
      unfolding serve handle_signup handle_login handle_recover
      serve-Rotated (signs_up current id random none) a h = ground arith
      serve-Rotated (signs_up current id random (some b)) a h =
          if-cases (is_valid b) Good
            (λ _. after_signup-Rotates random a (enrol ttl derive f current id random b a.rows))
            (λ _. fails-Rotates f now c key lives read undone named other a 400) h
      serve-Rotated (logs_in none) a h = ground arith
      serve-Rotated (logs_in (some b)) a h =
          after_login-Rotates a (authenticate derive f.users b.username b.password a.rows) h
      serve-Rotated (recovers random none) a h = ground arith
      serve-Rotated (recovers random (some b)) a h =
          if-cases (is_password b.password) Good
            (λ _.
              after_recover-Rotates a
                (recover_with_code derive f.users now b.username b.code b.password random a.rows))
            (λ _. fails-Rotates f now c key lives read undone named other a 400) h
