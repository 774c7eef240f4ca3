-- ===== src/Store/Users/Recovery.antt =====
-- Recovery codes of internal/store/users.go: a code that was issued lets its account back in once,
-- however it is typed.
use blundernet.Base.{
  ℕ, zero, suc, ◌%◌, ◌<◌, ◌≡◌, ◌≢◌, refl, sym, ap, subst, ◌∙◌, Text, text_eq→eq, text_eq_refl,
  String, str_eq, eq_refl, Bool, true, false, ◌&&◌, List, [], ◌∷◌, map, Option, none, some, ltb,
  ◌==◌, if◌then◌else◌, if-cases, arith, get_elem?, length,
}
use blundernet.Store.Users.{
  bad_recovery, Answer, done, refused, User, PasswordHash, Account, recovery_alphabet, occurs,
  upper, normalise_code, symbol, pretty, find_name, put, name_of, verify_password, hash_password,
  new_recovery_code, authenticate, issued, issue, set_recovery_code, recovered, Random,
  recover_with_code,
}

abbrev survives : ℕ → Bool
survives c = occurs (upper c) recovery_alphabet && (upper c == c)

abbrev survive : Text → Bool
survive [] = true
survive (c ∷ s) = survives c && survive s

abbrev letter : Option ℕ → ℕ
letter none = 0
letter (some c) = c

both_true : (b c : Bool) → (b && c) ≡ true → (b ≡ true) × (c ≡ true)
both_true true c h = (refl, h)
both_true false c h = ground arith

get_elem?-survives :
    (s : Text) (i : ℕ) → survive s ≡ true → i < length s → survives (letter (get_elem? s i)) ≡ true
get_elem?-survives [] i h lt = absurd (omega arith)
get_elem?-survives (c ∷ s) zero h lt = (both_true (survives c) (survive s) h).0
get_elem?-survives (c ∷ s) (suc i) h lt =
    get_elem?-survives s i (both_true (survives c) (survive s) h).1 (ground (arith, lt))

symbol-survives : (b : ℕ) → survives (symbol b) ≡ true
unfolding symbol
symbol-survives b = get_elem?-survives recovery_alphabet (b % 32) refl (omega arith)

kept_symbol : (c : ℕ) (s : Text) → survives c ≡ true → normalise_code (c ∷ s) ≡ c ∷ normalise_code s
unfolding normalise_code
kept_symbol c s h =
    let (there, same) = both_true (occurs (upper c) recovery_alphabet) (upper c == c) h in
    rw there (ap (λ x. x ∷ normalise_code s) (same_number (upper c) c same))
  where
    same_number : (a b : ℕ) → (a == b) ≡ true → a ≡ b
    same_number a b e = ground arith

dropped_dash : (s : Text) → normalise_code (b'-' ∷ s) ≡ normalise_code s
unfolding normalise_code
dropped_dash s = refl

-- The dashes are dropped, and nothing else is.
normalise_code-pretty : (i : ℕ) (buf : List ℕ) → normalise_code (pretty i buf) ≡ map symbol buf
unfolding pretty
normalise_code-pretty i [] = unfold normalise_code in refl
normalise_code-pretty i (b ∷ buf) =
    if-cases (ltb 0 i && (i % 5 == 0)) (λ t. normalise_code t ≡ symbol b ∷ map symbol buf)
      (λ _.
        dropped_dash (symbol b ∷ pretty (suc i) buf) ∙ grouped (normalise_code-pretty (suc i) buf))
      (λ _. grouped (normalise_code-pretty (suc i) buf))
  where
    grouped :
        normalise_code (pretty (suc i) buf) ≡ map symbol buf
        → normalise_code (symbol b ∷ pretty (suc i) buf) ≡ symbol b ∷ map symbol buf
    grouped ih =
        kept_symbol (symbol b) (pretty (suc i) buf) (symbol-survives b) ∙ ap (λ s. symbol b ∷ s) ih

-- A change of a row that keeps its name and its kind.
find_name-put :
    (name : Text) (id : String) (f : Account → Account) (rows : List Account) (a : Account)
    → ((x : Account) → ((f x).username ≡ x.username) × ((f x).is_guest ≡ x.is_guest))
    → find_name name rows ≡ some a
    → find_name name (put id f rows) ≡ some (if str_eq a.id id then f a else a)
unfolding find_name put
find_name-put name id f [] a keeps h = ground arith
find_name-put name id f (x ∷ rows) a keeps h =
    ground (arith, keeps x, find_name-put name id f rows a keeps)

module _ (derive : Text → Text → Text) where
  verify-hash :
      (p salt : Text)
      → verify_password derive p (record { salt = salt; key = derive p salt }) ≡ true
  unfolding verify_password
  verify-hash p salt = text_eq_refl (derive p salt)

  abbrev pub user_of : Account → User
  user_of a = record { id = a.id; username = name_of a.username; is_guest = false }

  abbrev pub supplied : Text → List ℕ → Text → Random derive
  supplied salt buf code_salt = record {
    salt = some salt;
    code = some buf;
    code_salt = some code_salt;
  }

  module _ (rows : List Account) (a : Account) (h : PasswordHash) (now later : ℕ)
      (name code password other : Text) (salt code_salt : Text) (buf : List ℕ)
      (random : Random derive) (found : find_name name rows ≡ some a) (set : a.recovery ≡ some h)
      (good : verify_password derive (normalise_code code) h ≡ true) where
    abbrev new_hash : PasswordHash
    new_hash = record { salt = salt; key = derive password salt }

    abbrev next_hash : PasswordHash
    next_hash = record { salt = code_salt; key = derive (normalise_code (pretty 0 buf)) code_salt }

    abbrev rows' : List Account
    rows' = put a.id (recovered derive now new_hash next_hash) rows

    spent :
        recover_with_code derive false now name code password (supplied salt buf code_salt) rows
        ≡ (rows', done (user_of a, pretty 0 buf))
    unfolding recover_with_code new_recovery_code hash_password
    spent = rw (found, set, good) refl

    found' : find_name name rows' ≡ some (recovered derive now new_hash next_hash a)
    found' =
        find_name-put name a.id (recovered derive now new_hash next_hash) rows a (λ x. (refl, refl))
          found
        ∙ rw (eq_refl a.id) refl

    signs_in : authenticate derive false name password rows' ≡ done (user_of a)
    unfolding authenticate
    signs_in = rw (found', verify-hash password salt) refl

    same_key :
        verify_password derive (normalise_code code) next_hash ≡ true
        → derive (normalise_code code) code_salt ≡ derive (map symbol buf) code_salt
    unfolding verify_password
    same_key same =
        text_eq→eq (derive (normalise_code code) code_salt) next_hash.key same
        ∙ ap (λ s. derive s code_salt) (normalise_code-pretty 0 buf)

    replayed :
        derive (normalise_code code) code_salt ≢ derive (map symbol buf) code_salt
        → recover_with_code derive false later name code other random rows'
          ≡ (rows', refused bad_recovery)
    unfolding recover_with_code
    replayed differ = rw found' (
        if-cases (verify_password derive (normalise_code code) next_hash)
          (λ (x : List Account × Answer (User × Text)). x ≡ (rows', refused bad_recovery))
          (λ same. absurd (differ (same_key same))) (λ _. refl))

  issue-some :
      (lost : Bool) (id : String) (rows rows' : List Account) (o : Option (Text × PasswordHash))
      (code : Text)
      → issue derive lost id rows o ≡ (rows', done code)
      → (h : PasswordHash) × (o ≡ some (code, h)) × (rows' ≡ put id (issued derive h) rows)
  issue-some lost id rows rows' none code e = ground arith
  issue-some lost id rows rows' (some (c, h)) code e = (h, ground (arith, e), ground (arith, e))

  abbrev Opens : Option (Text × PasswordHash) → Type 0
  Opens none = Unit
  Opens (some (code, h)) = verify_password derive (normalise_code code) h ≡ true

  code_hash :
      (buf : Option (List ℕ)) (salt : Option Text) (code : Text) (h : PasswordHash)
      → new_recovery_code derive buf salt ≡ some (code, h)
      → verify_password derive (normalise_code code) h ≡ true
  unfolding new_recovery_code hash_password verify_password
  code_hash none salt code h e = ground arith
  code_hash (some buf) none code h e = ground arith
  code_hash (some buf) (some salt) code h e =
      subst Opens e (text_eq_refl (derive (normalise_code (pretty 0 buf)) salt))

  issued-keeps :
      (h : PasswordHash) (x : Account)
      → ((issued derive h x).username ≡ x.username) × ((issued derive h x).is_guest ≡ x.is_guest)
  issued-keeps h x =
      if-cases x.is_guest (λ (y : Account). (y.username ≡ x.username) × (y.is_guest ≡ x.is_guest))
        (λ _. (refl, refl)) (λ _. (refl, refl))

  find_name-member :
      (name : Text) (rows : List Account) (a : Account)
      → find_name name rows ≡ some a
      → a.is_guest ≡ false
  unfolding find_name
  find_name-member name [] a e = ground arith
  find_name-member name (x ∷ rows) a e = ground (arith, find_name-member name rows a)

  abbrev given : PasswordHash → Account → Account
  given h a = record a { recovery = some h; recovery_used = none }

  found_issued :
      (rows : List Account) (a : Account) (name : Text) (h : PasswordHash)
      → find_name name rows ≡ some a
      → find_name name (put a.id (issued derive h) rows) ≡ some (given h a)
  found_issued rows a name h found =
      find_name-put name a.id (issued derive h) rows a (issued-keeps h) found
      ∙ rw (eq_refl a.id, find_name-member name rows a found) refl

  -- If SetRecoveryCode issues a code for the account that a name finds, then recovering under
  -- that name with the code, typed in any way that normaliseCode takes for the same, succeeds
  -- when its calls do and the random source gives bytes, and answers the account and the next
  -- code; the new password signs in; and the code that was spent is refused from then on and
  -- changes nothing, unless its hash is that of the next code.
  pub set_recovery_code-recover_with_code :
      (lost : Bool) (code_bytes : Option (List ℕ)) (first_salt : Option Text)
      (rows rows' : List Account) (a : Account) (now later : ℕ)
      (name code typed password other salt code_salt : Text) (buf : List ℕ) (random : Random derive)
      → find_name name rows ≡ some a
      → set_recovery_code derive lost code_bytes first_salt a.id rows ≡ (rows', done code)
      → normalise_code typed ≡ normalise_code code
      → derive (normalise_code code) code_salt ≢ derive (map symbol buf) code_salt
      → let (recovered_rows, r) =
          recover_with_code derive false now name typed password
            (supplied salt buf code_salt)
            rows' in
        (r ≡ done (user_of a, pretty 0 buf))
        × (authenticate derive false name password recovered_rows ≡ done (user_of a))
        × (recover_with_code derive false later name typed other random recovered_rows
            ≡ (recovered_rows, refused bad_recovery))
  unfolding set_recovery_code
  set_recovery_code-recover_with_code lost code_bytes first_salt rows rows' a now later name code
        typed password other salt code_salt buf random found issues same differ =
      let (h, hashed, is) =
        issue-some lost a.id rows rows' (new_recovery_code derive code_bytes first_salt) code
          issues in
      let there =
        subst (λ r. find_name name r ≡ some (given h a)) (sym is)
          (found_issued rows a name h found) in
      let good =
        subst (λ c. verify_password derive c h ≡ true) (sym same)
          (code_hash code_bytes first_salt code h hashed) in
      let recovery =
        spent rows' (given h a) h now later name typed password other salt code_salt buf random
          there refl good in
      rw recovery (
        refl,
        signs_in rows' (given h a) h now later name typed password other salt code_salt buf random
            there refl good,
        replayed rows' (given h a) h now later name typed password other salt code_salt buf random
            there refl good (λ e. differ (ap (λ c. derive c code_salt) (sym same) ∙ e)),
      )
