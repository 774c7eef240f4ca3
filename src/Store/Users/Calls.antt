-- ===== src/Store/Users/Calls.antt =====
-- Any calls on the accounts of internal/store/users.go: names and ids stay unique, and the check
-- constraint of migrations/0005_guest_reaper.sql never refuses a row.
use blundernet.Base.{
  ℕ, ◌≡◌, refl, subst, Text, String, Bool, true, false, not, ◌||◌, List, [], ◌∷◌, Option, none,
  some, if-cases, arith, ◌⊎◌, inl, inr,
}
use blundernet.Store.Users.{
  Answer, refused, User, PasswordHash, Account, find_id, has_id, name_taken, put, create_guest,
  upgrade, upgraded, create, is_guest_row, hash_password, is_member, issue, issued,
  set_recovery_code, recovered, write_recovery, check_code, recover_with_code, Random,
  new_recovery_code, find_name, bad_recovery, verify_password, normalise_code,
}
use blundernet.Store.Users.Rows.{
  Distinct, is_sound, untaken, or_false, find_name-find_id, find_id-is_sound, put-Distinct,
}

-- The calls, with what the outside decides of each.
pub data Call (derive : Text → Text → Text) : Type 0 where
  guest : Bool → String → Call derive
  upgrades : Bool → Option Text → String → Text → Text → Call derive
  creates : Bool → Option Text → String → Text → Text → Call derive
  issues : Bool → Option (List ℕ) → Option Text → String → Call derive
  recovers : Bool → ℕ → Text → Text → Text → Random derive → Call derive

module _ (derive : Text → Text → Text) where
  unfoldable pub run_call : Call derive → List Account → List Account
  run_call (guest lost id) rows = (create_guest lost id rows).0
  run_call (upgrades lost salt id name password) rows =
      (upgrade derive lost salt id name password rows).0
  run_call (creates lost salt id name password) rows =
      (create derive lost salt id name password rows).0
  run_call (issues lost buf salt id) rows = (set_recovery_code derive lost buf salt id rows).0
  run_call (recovers lost now name code password random) rows =
      (recover_with_code derive lost now name code password random rows).0

  unfoldable pub run_calls : List (Call derive) → List Account → List Account
  run_calls [] rows = rows
  run_calls (c ∷ cs) rows = run_calls cs (run_call c rows)

  create_guest-Distinct :
      (lost : Bool) (id : String) (rows : List Account)
      → Distinct rows
      → Distinct (create_guest lost id rows).0
  unfolding create_guest
  create_guest-Distinct lost id rows d =
      if-cases (lost || has_id id rows) (λ (x : List Account × Answer User). Distinct x.0) (λ _. d)
        (λ fresh. (refl, (or_false lost (has_id id rows) fresh).1, refl, d))

  create-Distinct :
      (lost : Bool) (salt : Option Text) (id : String) (name password : Text) (rows : List Account)
      → Distinct rows
      → Distinct (create derive lost salt id name password rows).0
  unfolding create hash_password
  create-Distinct lost none id name password rows d = d
  create-Distinct lost (some salt) id name password rows d =
      if-cases lost (λ (x : List Account × Answer User). Distinct x.0) (λ _. d)
        (λ _.
          if-cases (has_id id rows || name_taken id name rows)
            (λ (x : List Account × Answer User). Distinct x.0) (λ _. d)
            (λ fresh.
              let (new, free) = or_false (has_id id rows) (name_taken id name rows) fresh in
              (refl, new, untaken id name rows new free, d)))

  upgrade-Distinct :
      (lost : Bool) (salt : Option Text) (id : String) (name password : Text) (rows : List Account)
      → Distinct rows
      → Distinct (upgrade derive lost salt id name password rows).0
  unfolding upgrade hash_password
  upgrade-Distinct lost none id name password rows d = d
  upgrade-Distinct lost (some salt) id name password rows d =
      if-cases lost Kept (λ _. d)
        (λ _.
          if-cases (not (is_guest_row derive (find_id id rows))) Kept (λ _. d)
            (λ held.
              if-cases (name_taken id name rows) Kept (λ _. d)
                (λ free. found (find_id id rows) refl held free)))
    where
      Kept : List Account × Answer User → Type 0
      Kept x = Distinct x.0

      found :
          (o : Option Account)
          → find_id id rows ≡ o
          → not (is_guest_row derive o) ≡ false
          → name_taken id name rows ≡ false
          → Distinct (
              put id
                (upgraded derive name (record { salt = salt; key = derive password salt }))
                rows)
      found none e held free = ground arith
      found (some a) e held free =
          put-Distinct id
            (upgraded derive name (record { salt = salt; key = derive password salt })) a refl rows
            d e refl
            (λ n new. inr (subst (λ m. name_taken id m rows ≡ false) (ground (arith, new)) free))

  set_recovery_code-Distinct :
      (lost : Bool) (buf : Option (List ℕ)) (salt : Option Text) (id : String) (rows : List Account)
      → Distinct rows
      → Distinct (set_recovery_code derive lost buf salt id rows).0
  unfolding set_recovery_code
  set_recovery_code-Distinct lost buf salt id rows d = issued_by (new_recovery_code derive buf salt)
    where
      Kept : List Account × Answer Text → Type 0
      Kept x = Distinct x.0

      found :
          (h : PasswordHash) (o : Option Account)
          → find_id id rows ≡ o
          → not (is_member derive o) ≡ false
          → Distinct (put id (issued derive h) rows)
      found h none e member = ground arith
      found h (some a) e member =
          put-Distinct id (issued derive h) a
            (if-cases a.is_guest (λ (y : Account). y.id ≡ a.id) (λ _. refl) (λ _. refl)) rows d e
            (if-cases a.is_guest (λ (y : Account). is_sound y ≡ true) (λ g. ground arith)
              (λ no_guest. ground (arith, no_guest, find_id-is_sound id rows a d e)))
            (λ n.
              if-cases a.is_guest
                (λ (y : Account).
                  y.username ≡ some n → (a.username ≡ some n) ⊎ (name_taken id n rows ≡ false))
                (λ _ same. inl same) (λ _ same. inl same))

      issued_by : (o : Option (Text × PasswordHash)) → Kept (issue derive lost id rows o)
      issued_by none = d
      issued_by (some (code, h)) =
          if-cases lost Kept (λ _. d)
            (λ _.
              if-cases (not (is_member derive (find_id id rows))) Kept (λ _. d)
                (λ member. found h (find_id id rows) refl member))

  recover_with_code-Distinct :
      (lost : Bool) (now : ℕ) (name code password : Text) (random : Random derive)
      (rows : List Account)
      → Distinct rows
      → Distinct (recover_with_code derive lost now name code password random rows).0
  unfolding recover_with_code
  recover_with_code-Distinct lost now name code password random rows d =
      if-cases lost Kept (λ _. d) (λ _. with_row (find_name name rows) refl)
    where
      Kept : List Account × Answer (User × Text) → Type 0
      Kept x = Distinct x.0

      written :
          (a : Account) (h : Option PasswordHash) (next : Option (Text × PasswordHash))
          → find_name name rows ≡ some a
          → Kept (write_recovery derive now a rows h next)
      written a none next e = d
      written a (some h) none e = d
      written a (some h) (some (c, n)) e =
          let (there, member) = find_name-find_id name rows a d e in
          put-Distinct a.id (recovered derive now h n) a refl rows d there
            (ground (arith, member, find_id-is_sound a.id rows a d there)) (λ m same. inl same)

      checked :
          (a : Account) (o : Option PasswordHash)
          → find_name name rows ≡ some a
          → Kept (check_code derive now code password random a rows o)
      checked a none e = d
      checked a (some h) e =
          if-cases (verify_password derive (normalise_code code) h) Kept
            (λ _.
              written a (hash_password derive random.salt password)
                (new_recovery_code derive random.code random.code_salt) e)
            (λ _. d)

      with_row :
          (o : Option Account)
          → find_name name rows ≡ o
          → Kept (elim o [
            | none ↦ (rows, refused bad_recovery)
            | some a ↦ check_code derive now code password random a rows a.recovery
          ])
      with_row none e = d
      with_row (some a) e = checked a a.recovery e

  run_call-Distinct :
      (call : Call derive) (rows : List Account) → Distinct rows → Distinct (run_call call rows)
  unfolding run_call
  run_call-Distinct (guest lost id) rows d = create_guest-Distinct lost id rows d
  run_call-Distinct (upgrades lost salt id name password) rows d =
      upgrade-Distinct lost salt id name password rows d
  run_call-Distinct (creates lost salt id name password) rows d =
      create-Distinct lost salt id name password rows d
  run_call-Distinct (issues lost buf salt id) rows d =
      set_recovery_code-Distinct lost buf salt id rows d
  run_call-Distinct (recovers lost now name code password random) rows d =
      recover_with_code-Distinct lost now name code password random rows d

  -- If no two accounts share an id or a name up to case, and each account is a guest's with no
  -- name and no secrets, or has a name and a password, then so it is after any sequence of calls
  -- of CreateGuest, Upgrade, Create, SetRecoveryCode and RecoverWithCode, whichever of them
  -- fail.
  pub run_calls-Distinct :
      (calls : List (Call derive)) (rows : List Account)
      → Distinct rows
      → Distinct (run_calls calls rows)
  unfolding run_calls
  run_calls-Distinct [] rows d = d
  run_calls-Distinct (c ∷ cs) rows d =
      run_calls-Distinct cs (run_call c rows) (run_call-Distinct c rows d)
