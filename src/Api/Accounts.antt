-- ===== src/Api/Accounts.antt =====
-- internal/httpapi/auth.go: signing up, in and out, recovery, and who a request is. Accounts are
-- configured. New ids, session keys and random bytes are arguments. A cookie's token and the digest
-- that Redis keeps of it are one key. Where the code only logs an error, the handler goes on.
pub mod Recovered
pub mod Rotation
use blundernet.Base.{
  ℕ, Text, String, str_eq, length, Bool, true, false, not, ◌&&◌, ◌||◌, List, [], ◌∷◌, Option, none,
  some, ltb, leb, ◌==◌, if◌then◌else◌,
}
use blundernet.Errors.{Except, ok, err, backend}
use blundernet.Store.Sessions.{Sessions, create, lookup, destroy, destroy_all_for}
use blundernet.Store.Users.{
  UserError, username_taken, not_guest, bad_credentials, bad_recovery, Answer, done, refused, User,
  Account, Random, create_guest, by_id, upgrade, authenticate, set_recovery_code, recover_with_code,
  has_recovery_code,
}
use blundernet.Store.Users

pub record Credentials : Type 0 where
  pub username : Text
  pub password : Text

pub record Recovery : Type 0 where
  pub username : Text
  pub code : Text
  pub password : Text

pub data Cookie : Type 0 where
  kept cleared : Cookie
  set : String → Cookie

pub record Reply : Type 0 where
  pub status : ℕ
  pub cookie : Cookie
  pub user : Option User
  pub recovery : Option Text

-- What the auth handlers work on.
pub record Accounts : Type 0 where
  pub rows : List Account
  pub sessions : Sessions

-- Which calls of one request fail.
pub record Faults : Type 0 where
  pub users : Bool
  pub code : Bool
  pub owner : Bool
  pub destroy : Bool
  pub create : Bool
  pub revoke : Bool

abbrev pub fails : ℕ → Reply
fails status = record { status = status; cookie = kept; user = none; recovery = none }

abbrev pub is_name_char : ℕ → Bool
is_name_char c =
    (leb b'a' c && leb c b'z')
    || ((leb b'A' c && leb c b'Z') || ((leb b'0' c && leb c b'9') || ((c == b'_') || (c == b'-'))))

abbrev pub are_name_chars : Text → Bool
are_name_chars [] = true
are_name_chars (c ∷ s) = is_name_char c && are_name_chars s

-- usernamePattern
unfoldable pub is_username : Text → Bool
is_username s = leb 3 (length s) && leb (length s) 20 && are_name_chars s

abbrev pub is_password : Text → Bool
is_password p = not (ltb (length p) 8) && not (ltb 128 (length p))

-- credentials.validate
unfoldable pub is_valid : Credentials → Bool
unfolding is_username
is_valid c = is_username c.username && is_password c.password

-- The token of a cookie, if it has one.
abbrev pub token : Option String → Option String
token none = none
token (some c) = if str_eq c "" then none else some c

abbrev pub after_lookup : Bool → List Account → Except String → Option User
after_lookup lost rows (err e) = none
after_lookup lost rows (ok id) = elim (by_id lost id rows) [ done u ↦ some u | refused e ↦ none ]

-- handleMe: who the caller is, and whether a member has a recovery code. A failed read is only
-- logged, and tells that there is none.
pub record Me : Type 0 where
  pub user : User
  pub has_recovery : Option Bool

abbrev pub told_of : Answer Bool → Bool
told_of (done b) = b
told_of (refused e) = false

unfoldable pub handle_me : Bool → Option User → Accounts → Option Me
handle_me lost none a = none
handle_me lost (some u) a = some (record {
  user = u;
  has_recovery = if u.is_guest then none else some (told_of (has_recovery_code lost u.id a.rows));
})

module _ (ttl : ℕ) where
  abbrev pub looked_up : Bool → Accounts → Sessions × Except String → Accounts × Option User
  looked_up lost a (s, r) = (record a { sessions = s }, after_lookup lost a.rows r)

  -- lookupSession
  unfoldable pub lookup_session :
      Bool → Bool → ℕ → Option String → Accounts → Accounts × Option User
  lookup_session lost unrefreshed now cookie a = elim (token cookie) [
    | none ↦ (a, none)
    | some k ↦ looked_up lost a (lookup ttl lost unrefreshed now k a.sessions)
  ]

  abbrev pub destroy_token : Faults → ℕ → Option String → Sessions → Sessions
  destroy_token f now cookie s = elim (token cookie) [
    | none ↦ s
    | some k ↦ (destroy f.owner f.destroy now k s).0
  ]

  abbrev pub after_create :
      ℕ → User → Option Text → Accounts → Sessions × Except String → Accounts × Reply
  after_create status user recovery a (s, err e) = (record a { sessions = s }, fails 500)
  after_create status user recovery a (s, ok k) = (
    record a { sessions = s },
    record { status = status; cookie = set k; user = some user; recovery = recovery },
  )

  unfoldable pub start_session :
      Faults → ℕ → Option String → String → ℕ → User → Option Text → Accounts → Accounts × Reply
  start_session f now cookie key status user recovery a =
      after_create status user recovery a
        (create ttl f.create now key user.id (destroy_token f now cookie a.sessions))

  -- ensureIdentity, with the guest's new id.
  abbrev pub after_guest :
      Bool → ℕ → String → Accounts → List Account × Answer User → Accounts × Except (User × Cookie)
  after_guest lost now key a (rows, refused e) = (record a { rows = rows }, err backend)
  after_guest lost now key a (rows, done u) =
      let (s, r) = create ttl lost now key u.id a.sessions in
      (record { rows = rows; sessions = s }, elim r [ err e ↦ err e | ok k ↦ ok (u, set k) ])

  unfoldable pub ensure_identity :
      Faults → ℕ → Option User → String → String → Accounts → Accounts × Except (User × Cookie)
  ensure_identity f now (some u) id key a = (a, ok (u, kept))
  ensure_identity f now none id key a =
      after_guest f.create now key a (create_guest f.users id a.rows)

  -- handleLogout
  abbrev pub signed_out : Accounts → Sessions × Except (Unit {0}) → Accounts × Reply
  signed_out a (s, err e) = (record a { sessions = s }, fails 500)
  signed_out a (s, ok u) = (
    record a { sessions = s },
    record { status = 204; cookie = cleared; user = none; recovery = none },
  )

  unfoldable pub handle_logout : Faults → ℕ → Option String → Accounts → Accounts × Reply
  handle_logout f now cookie a = elim (token cookie) [
    | none ↦ (a, record { status = 204; cookie = cleared; user = none; recovery = none })
    | some k ↦ signed_out a (destroy f.owner f.destroy now k a.sessions)
  ]

  module _ (derive : Text → Text → Text) where
    -- The code of a new account, if it could be issued.
    abbrev pub code_given : Answer Text → Option Text
    code_given (done code) = some code
    code_given (refused e) = none

    abbrev pub signup_status : UserError → ℕ
    signup_status username_taken = 409
    signup_status not_guest = 409
    signup_status _ = 500

    abbrev pub after_signup :
        Faults
        → ℕ
        → Option String
        → String
        → Random derive
        → Accounts
        → List Account × Answer User
        → Accounts × Reply
    after_signup f now cookie key random a (rows, refused e) =
        (record a { rows = rows }, fails (signup_status e))
    after_signup f now cookie key random a (rows, done u) =
        let (rows', code) =
          set_recovery_code derive f.code random.code random.code_salt u.id rows in
        start_session f now cookie key 201 u (code_given code) (record a { rows = rows' })

    -- The upgrade of a guest, or a new account.
    abbrev pub enrol :
        Faults
        → Option User
        → String
        → Random derive
        → Credentials
        → List Account
        → List Account × Answer User
    enrol f none id random c rows =
        Users.create derive f.users random.salt id c.username c.password rows
    enrol f (some u) id random c rows =
        if u.is_guest
        then upgrade derive f.users random.salt u.id c.username c.password rows
        else Users.create derive f.users random.salt id c.username c.password rows

    unfoldable pub handle_signup :
        Faults
        → ℕ
        → Option String
        → Option User
        → String
        → String
        → Random derive
        → Option Credentials
        → Accounts
        → Accounts × Reply
    handle_signup f now cookie current id key random none a = (a, fails 400)
    handle_signup f now cookie current id key random (some c) a =
        if is_valid c
        then after_signup f now cookie key random a (enrol f current id random c a.rows)
        else (a, fails 400)

    abbrev pub login_status : UserError → ℕ
    login_status bad_credentials = 401
    login_status _ = 500

    abbrev pub after_login :
        Faults → ℕ → Option String → String → Accounts → Answer User → Accounts × Reply
    after_login f now cookie key a (refused e) = (a, fails (login_status e))
    after_login f now cookie key a (done u) = start_session f now cookie key 200 u none a

    unfoldable pub handle_login :
        Faults → ℕ → Option String → String → Option Credentials → Accounts → Accounts × Reply
    handle_login f now cookie key none a = (a, fails 400)
    handle_login f now cookie key (some c) a =
        after_login f now cookie key a (authenticate derive f.users c.username c.password a.rows)

    abbrev pub recover_status : UserError → ℕ
    recover_status bad_recovery = 401
    recover_status _ = 500

    abbrev pub after_recover :
        Faults
        → ℕ
        → Option String
        → String
        → Accounts
        → List Account × Answer (User × Text)
        → Accounts × Reply
    after_recover f now cookie key a (rows, refused e) =
        (record a { rows = rows }, fails (recover_status e))
    after_recover f now cookie key a (rows, done (u, next)) =
        start_session f now cookie key 200 u (some next)
          (record { rows = rows; sessions = (destroy_all_for f.revoke now u.id a.sessions).0 })

    unfoldable pub handle_recover :
        Faults
        → ℕ
        → Option String
        → String
        → Random derive
        → Option Recovery
        → Accounts
        → Accounts × Reply
    handle_recover f now cookie key random none a = (a, fails 400)
    handle_recover f now cookie key random (some b) a =
        if is_password b.password
        then after_recover f now cookie key a
            (recover_with_code derive f.users now b.username b.code b.password random a.rows)
        else (a, fails 400)

    abbrev pub new_code : Faults → User → Random derive → Accounts → Answer User → Accounts × Reply
    new_code f u random a (refused e) = (a, fails 401)
    new_code f u random a (done v) =
        let (rows, r) = set_recovery_code derive f.code random.code random.code_salt u.id a.rows in
        (
          record a { rows = rows },
          elim r [
            | refused e ↦ fails 500
            | done code ↦ record { status = 200; cookie = kept; user = none; recovery = some code }
          ],
        )

    -- handleNewRecoveryCode, with the password of the body.
    unfoldable pub handle_new_recovery_code :
        Faults → Option User → Random derive → Option Text → Accounts → Accounts × Reply
    handle_new_recovery_code f none random password a = (a, fails 401)
    handle_new_recovery_code f (some u) random none a = (a, fails (if u.is_guest then 401 else 400))
    handle_new_recovery_code f (some u) random (some password) a =
        if u.is_guest
        then (a, fails 401)
        else new_code f u random a (authenticate derive f.users u.username password a.rows)
