-- ===== src/Store/Sessions.antt =====
-- internal/store/sessions.go: sessions in Redis, and the index that tells which are a user's. A key
-- that Redis expires is an entry whose time has come. Between the read and the pipeline of Lookup
-- and of Destroy any other call may run, so the pipelines are operations of their own. A session's
-- key stands for the digest of its token.
pub mod Spec
pub mod Index
pub mod Refine
use blundernet.Base.{
  ℕ, ◌+◌, ◌≡◌, String, str_eq, Bool, true, false, not, ◌||◌, List, [], ◌∷◌, Option, none, some, ltb,
  keep, if◌then◌else◌,
}
use blundernet.Errors.{Except, ok, err, not_found, backend}

pub record Entry (A : Type 0) : Type 0 where
  pub value : A
  pub expires : ℕ

-- What Redis still holds at a time.
abbrev pub fresh : {A : Type 0} → ℕ → Option (Entry A) → Option (Entry A)
fresh now none = none
fresh now (some e) = if ltb now e.expires then some e else none

pub record Sessions : Type 0 where
  pub sessions : String → Option (Entry String)
  pub index : String → Option (Entry (List String))

abbrev pub has : String → List String → Bool
has k [] = false
has k (x ∷ xs) = str_eq x k || has k xs

-- The members of a set that may have expired.
abbrev pub members : Option (Entry (List String)) → List String
members none = []
members (some e) = e.value

abbrev pub put_session : String → Option (Entry String) → Sessions → Sessions
put_session k e s = record s { sessions = λ j. if str_eq k j then e else s.sessions j }

abbrev pub put_index : String → Option (Entry (List String)) → Sessions → Sessions
put_index u e s = record s { index = λ j. if str_eq u j then e else s.index j }

module _ (ttl : ℕ) where
  -- SADD and EXPIRE on a user's index.
  abbrev pub add_key : ℕ → String → String → Sessions → Sessions
  add_key now user k s =
      put_index user
        (some (record { value = k ∷ members (fresh now (s.index user)); expires = now + ttl })) s

  -- The pipeline of Create.
  unfoldable pub store : ℕ → String → String → Sessions → Sessions
  store now k user s =
      add_key now user k (put_session k (some (record { value = user; expires = now + ttl })) s)

  unfoldable pub create : Bool → ℕ → String → String → Sessions → Sessions × Except String
  create lost now k user s = if lost then (s, err backend) else (store now k user s, ok k)

  -- EXPIRE, which does nothing to a key that is not there.
  abbrev pub extend : ℕ → Option (Entry String) → Option (Entry String)
  extend now none = none
  extend now (some e) = some (record e { expires = now + ttl })

  -- The pipeline of Lookup.
  unfoldable pub refresh : ℕ → String → String → Sessions → Sessions
  refresh now k user s =
      add_key now user k (put_session k (extend now (fresh now (s.sessions k))) s)

  abbrev pub after_get :
      Bool → ℕ → String → Sessions → Option (Entry String) → Sessions × Except String
  after_get lost now k s none = (s, err not_found)
  after_get lost now k s (some e) = (if lost then s else refresh now k e.value s, ok e.value)

  -- `lost` says that the read fails, `unrefreshed` that the pipeline does.
  unfoldable pub lookup : Bool → Bool → ℕ → String → Sessions → Sessions × Except String
  lookup lost unrefreshed now k s =
      if lost then (s, err backend) else after_get unrefreshed now k s (fresh now (s.sessions k))

-- The pipeline of Destroy: DEL and SREM.
abbrev pub without_key : String → Option (Entry (List String)) → Option (Entry (List String))
without_key k none = none
without_key k (some e) = some (record e { value = keep (λ x. not (str_eq x k)) e.value })

unfoldable pub forget : String → String → Sessions → Sessions
forget k user s = put_index user (without_key k (s.index user)) (put_session k none s)

abbrev pub after_owner :
    Bool → String → Sessions → Option (Entry String) → Sessions × Except (Unit {0})
after_owner lost k s none = (s, ok tt)
after_owner lost k s (some e) = if lost then (s, err backend) else (forget k e.value s, ok tt)

unfoldable pub destroy : Bool → Bool → ℕ → String → Sessions → Sessions × Except (Unit {0})
destroy lost undone now k s =
    if lost then (s, err backend) else after_owner undone k s (fresh now (s.sessions k))

-- revokeSessions: every key of the index, and the index.
unfoldable pub revoke : ℕ → String → Sessions → Sessions
revoke now user s =
    let keys = members (fresh now (s.index user)) in
    record {
      sessions = λ j. if has j keys then none else s.sessions j;
      index = λ j. if str_eq user j then none else s.index j;
    }

unfoldable pub destroy_all_for : Bool → ℕ → String → Sessions → Sessions × Except (Unit {0})
destroy_all_for lost now user s = if lost then (s, err backend) else (revoke now user s, ok tt)
