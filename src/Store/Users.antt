-- ===== src/Store/Users.antt =====
-- internal/store/users.go: accounts, passwords and recovery codes, with migrations/0002_users.sql,
-- 0004_guests.sql, 0005_guest_reaper.sql and 0014_recovery_codes.sql. Argon2id with the fixed
-- parameters is a parameter, and a hash is its salt and its key. A password is the list of its
-- bytes. What the random source gives is an argument, `none` when it fails. A transaction is one
-- step; one that fails (`lost`) changes nothing.
pub mod Rows
pub mod Calls
pub mod Recovery
use blundernet.Base.{
  ℕ, suc, ◌+◌, ◌%◌, Text, codes, text_eq, equal_fold, String, str_eq, Bool, true, false, not, ◌&&◌,
  ◌||◌, List, [], ◌∷◌, Option, none, some, ltb, leb, ◌-◌, ◌==◌, get_elem?, if◌then◌else◌,
}

pub data UserError : Type 0 where
  username_taken bad_credentials not_guest bad_recovery missing failed : UserError

pub data Answer (A : Type 0) : Type 0 where
  done : A → Answer A
  refused : UserError → Answer A

pub record User : Type 0 where
  pub id : String
  pub username : Text
  pub is_guest : Bool

pub record PasswordHash : Type 0 where
  pub salt : Text
  pub key : Text

-- A row of users; NULL is `none`.
pub record Account : Type 0 where
  pub id : String
  pub username : Option Text
  pub password : Option PasswordHash
  pub is_guest : Bool
  pub recovery : Option PasswordHash
  pub recovery_used : Option ℕ

abbrev pub recovery_alphabet : Text
recovery_alphabet = codes "0123456789ABCDEFGHJKMNPQRSTVWXYZ"

abbrev pub occurs : ℕ → Text → Bool
occurs c [] = false
occurs c (x ∷ xs) = (c == x) || occurs c xs

-- unicode.ToUpper, for ASCII.
abbrev pub upper : ℕ → ℕ
upper c = if leb b'a' c && leb c b'z' then c - 32 else c

unfoldable pub normalise_code : Text → Text
normalise_code [] = []
normalise_code (c ∷ s) =
    let rest = normalise_code s in
    if occurs (upper c) recovery_alphabet then upper c ∷ rest else rest

-- recoveryAlphabet[int(b)%len(recoveryAlphabet)]
unfoldable pub symbol : ℕ → ℕ
symbol b = elim (get_elem? recovery_alphabet (b % 32)) [ none ↦ 0 | some c ↦ c ]

-- The loop of newRecoveryCode from its i-th byte.
unfoldable pub pretty : ℕ → List ℕ → Text
pretty i [] = []
pretty i (b ∷ buf) =
    let rest = symbol b ∷ pretty (suc i) buf in
    if ltb 0 i && (i % 5 == 0) then b'-' ∷ rest else rest

abbrev pub same_name : Text → Option Text → Bool
same_name name none = false
same_name name (some n) = equal_fold n name

-- WHERE lower(username) = lower($1) AND NOT is_guest
unfoldable pub find_name : Text → List Account → Option Account
find_name name [] = none
find_name name (a ∷ rows) =
    let rest = find_name name rows in
    if same_name name a.username && not a.is_guest then some a else rest

unfoldable pub find_id : String → List Account → Option Account
find_id id [] = none
find_id id (a ∷ rows) = let rest = find_id id rows in if str_eq a.id id then some a else rest

unfoldable pub has_id : String → List Account → Bool
has_id id [] = false
has_id id (a ∷ rows) = str_eq a.id id || has_id id rows

-- The unique index on lower(username), for a row other than that of `id`.
unfoldable pub name_taken : String → Text → List Account → Bool
name_taken id name [] = false
name_taken id name (a ∷ rows) =
    (not (str_eq a.id id) && same_name name a.username) || name_taken id name rows

unfoldable pub put : String → (Account → Account) → List Account → List Account
put id f [] = []
put id f (a ∷ rows) = (if str_eq a.id id then f a else a) ∷ put id f rows

abbrev pub name_of : Option Text → Text
name_of none = []
name_of (some n) = n

unfoldable pub create_guest : Bool → String → List Account → List Account × Answer User
create_guest lost id rows = if lost || has_id id rows then (rows, refused failed) else (
  record {
    id = id;
    username = none;
    password = none;
    is_guest = true;
    recovery = none;
    recovery_used = none;
  }
      ∷ rows,
  done (record { id = id; username = []; is_guest = true }),
)

unfoldable pub by_id : Bool → String → List Account → Answer User
by_id lost id rows = if lost then refused failed else elim (find_id id rows) [
  | none ↦ refused missing
  | some a ↦ done (record { id = a.id; username = name_of a.username; is_guest = a.is_guest })
]

unfoldable pub has_recovery_code : Bool → String → List Account → Answer Bool
has_recovery_code lost id rows = if lost then refused failed else elim (find_id id rows) [
  | none ↦ refused missing
  | some a ↦ done (elim a.recovery [ none ↦ false | some h ↦ true ])
]

module _ (derive : Text → Text → Text) where
  unfoldable pub hash_password : Option Text → Text → Option PasswordHash
  hash_password none password = none
  hash_password (some salt) password = some (record { salt = salt; key = derive password salt })

  unfoldable pub verify_password : Text → PasswordHash → Bool
  verify_password password h = text_eq (derive password h.salt) h.key

  abbrev pub hashed_code : Option Text → Text → Option (Text × PasswordHash)
  hashed_code salt code = elim (hash_password salt (normalise_code code)) [
    | none ↦ none
    | some h ↦ some (code, h)
  ]

  unfoldable pub new_recovery_code : Option (List ℕ) → Option Text → Option (Text × PasswordHash)
  new_recovery_code none salt = none
  new_recovery_code (some buf) salt = hashed_code salt (pretty 0 buf)

  -- Whether the UPDATE of Upgrade finds its row.
  abbrev pub is_guest_row : Option Account → Bool
  is_guest_row none = false
  is_guest_row (some a) = a.is_guest

  abbrev pub upgraded : Text → PasswordHash → Account → Account
  upgraded name h a = record a { username = some name; password = some h; is_guest = false }

  unfoldable pub upgrade :
      Bool → Option Text → String → Text → Text → List Account → List Account × Answer User
  upgrade lost salt id name password rows = elim (hash_password salt password) [
    | none ↦ (rows, refused failed)
    | some h ↦
        if lost
        then (rows, refused failed)
        else if not (is_guest_row (find_id id rows))
        then (rows, refused not_guest)
        else if name_taken id name rows
        then (rows, refused username_taken)
        else (
          put id (upgraded name h) rows,
          done (record { id = id; username = name; is_guest = false }),
        )
  ]

  abbrev pub account : String → Text → PasswordHash → Account
  account id name h = record {
    id = id;
    username = some name;
    password = some h;
    is_guest = false;
    recovery = none;
    recovery_used = none;
  }

  -- A violated primary key is reported as a taken name too.
  unfoldable pub create :
      Bool → Option Text → String → Text → Text → List Account → List Account × Answer User
  create lost salt id name password rows = elim (hash_password salt password) [
    | none ↦ (rows, refused failed)
    | some h ↦
        if lost
        then (rows, refused failed)
        else if has_id id rows || name_taken id name rows
        then (rows, refused username_taken)
        else (
          account id name h ∷ rows,
          done (record { id = id; username = name; is_guest = false }),
        )
  ]

  -- A row without a password does not scan.
  abbrev pub check_password : Text → Account → Option PasswordHash → Answer User
  check_password password a none = refused failed
  check_password password a (some h) =
      if verify_password password h
      then done (record { id = a.id; username = name_of a.username; is_guest = false })
      else refused bad_credentials

  unfoldable pub authenticate : Bool → Text → Text → List Account → Answer User
  authenticate lost name password rows =
      if lost then refused failed else elim (find_name name rows) [
        | none ↦ refused bad_credentials
        | some a ↦ check_password password a a.password
      ]

  abbrev pub issued : PasswordHash → Account → Account
  issued h a = if a.is_guest then a else record a { recovery = some h; recovery_used = none }

  abbrev pub is_member : Option Account → Bool
  is_member none = false
  is_member (some a) = not a.is_guest

  abbrev pub issue :
      Bool → String → List Account → Option (Text × PasswordHash) → List Account × Answer Text
  issue lost id rows none = (rows, refused failed)
  issue lost id rows (some (code, h)) =
      if lost
      then (rows, refused failed)
      else if not (is_member (find_id id rows))
      then (rows, refused missing)
      else (put id (issued h) rows, done code)

  unfoldable pub set_recovery_code :
      Bool → Option (List ℕ) → Option Text → String → List Account → List Account × Answer Text
  set_recovery_code lost buf salt id rows = issue lost id rows (new_recovery_code buf salt)

  abbrev pub recovered : ℕ → PasswordHash → PasswordHash → Account → Account
  recovered now h next a = record a {
    password = some h;
    recovery = some next;
    recovery_used = some now;
  }

  abbrev pub write_recovery :
      ℕ
      → Account
      → List Account
      → Option PasswordHash
      → Option (Text × PasswordHash)
      → List Account × Answer (User × Text)
  write_recovery now a rows none next = (rows, refused failed)
  write_recovery now a rows (some h) none = (rows, refused failed)
  write_recovery now a rows (some h) (some (code, next)) = (
    put a.id (recovered now h next) rows,
    done (record { id = a.id; username = name_of a.username; is_guest = false }, code),
  )

  -- What RecoverWithCode takes from the random source: the salt of the password's hash, and the
  -- bytes of the next code with the salt of its hash.
  pub record Random : Type 0 where
    pub salt : Option Text
    pub code : Option (List ℕ)
    pub code_salt : Option Text

  abbrev pub check_code :
      ℕ
      → Text
      → Text
      → Random
      → Account
      → List Account
      → Option PasswordHash
      → List Account × Answer (User × Text)
  check_code now code password random a rows none = (rows, refused bad_recovery)
  check_code now code password random a rows (some h) =
      if verify_password (normalise_code code) h
      then write_recovery now a rows (hash_password random.salt password)
          (new_recovery_code random.code random.code_salt)
      else (rows, refused bad_recovery)

  unfoldable pub recover_with_code :
      Bool → ℕ → Text → Text → Text → Random → List Account → List Account × Answer (User × Text)
  recover_with_code lost now name code password random rows =
      if lost then (rows, refused failed) else elim (find_name name rows) [
        | none ↦ (rows, refused bad_recovery)
        | some a ↦ check_code now code password random a rows a.recovery
      ]
