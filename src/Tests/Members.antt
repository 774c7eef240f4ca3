-- ===== src/Tests/Members.antt =====
-- Accounts on small tables: a toy key derivation, one member with a code, and two browsers.
use blundernet.Base.{
  ◌≡◌, ◌≢◌, Text, codes, String, List, [], ◌∷◌, none, some, refl, arith, true, false, ◌++◌, map,
  equal_fold, if◌then◌else◌, str_eq, eq_iff,
}
use blundernet.Store.Sessions.{Sessions, store, Entry, create, destroy_all_for, revoke}
use blundernet.Store.Sessions.Spec.{stores, run_write}
use blundernet.Store.Sessions.Index.{Indexed, Indexed-run_write, Indexed-later}
use blundernet.Tests.Logins.{nobody, nobody-Indexed}
use blundernet.Store.Users.{
  Account, PasswordHash, Random, done, refused, bad_recovery, pretty, authenticate,
  set_recovery_code, recover_with_code, find_name, new_recovery_code, hash_password, symbol,
  normalise_code, find_id, put, verify_password,
}
use blundernet.Store.Users.Rows.{Distinct}
use blundernet.Store.Users.Calls.{
  Call, guest, upgrades, creates, issues, run_calls, run_calls-Distinct,
}
use blundernet.Store.Users.Recovery.{set_recovery_code-recover_with_code, supplied, user_of}
use blundernet.Api.Accounts.{Accounts, Recovery, Faults, Reply, handle_recover, start_session}
use blundernet.Api.Accounts.Rotation.{Live, sets, recovers, serve, serve-Rotated, Rotated}
use blundernet.Api.Accounts.Recovered.{handle_recover-OnlyThis}

-- A key derivation that only joins its arguments.
abbrev joined : Text → Text → Text
joined password salt = password ++ salt

abbrev calls : List (Call joined)
calls =
    guest false "g"
    ∷ upgrades false (some (codes "s")) "g" (codes "Ana") (codes "password")
    ∷ creates false (some (codes "s")) "b" (codes "aNa") (codes "password")
    ∷ issues false (some (1 ∷ 2 ∷ [])) (some (codes "t")) "g"
    ∷ []

run_calls-Distinct_example : Distinct (run_calls joined calls [])
run_calls-Distinct_example = run_calls-Distinct joined calls [] tt

abbrev ana : Account
ana = record {
  id = "ana";
  username = some (codes "Ana");
  password = some (record { salt = codes "s"; key = codes "passwords" });
  is_guest = false;
  recovery = none;
  recovery_used = none;
}

abbrev ana_hash : PasswordHash
ana_hash = record { salt = codes "t"; key = codes "ABt" }

ana_found : find_name (codes "aNA") (ana ∷ []) ≡ some ana
unfolding find_name equal_fold
ana_found = refl

ana_issued :
    set_recovery_code joined false (some (10 ∷ 11 ∷ [])) (some (codes "t")) "ana" (ana ∷ [])
    ≡ (record ana { recovery = some ana_hash } ∷ [], done (codes "AB"))
unfolding set_recovery_code new_recovery_code hash_password pretty symbol normalise_code find_id put
ana_issued = refl

ana_types : normalise_code (codes "a-b ") ≡ normalise_code (codes "AB")
unfolding normalise_code
ana_types = refl

other_code :
    joined (normalise_code (codes "AB")) (codes "u") ≢ joined (map symbol (3 ∷ [])) (codes "u")
unfolding normalise_code symbol
other_code = λ h. ground (arith, h)

abbrev later_random : Random joined
later_random = record { salt = none; code = none; code_salt = none }

set_recovery_code-recover_with_code_example :
    let (rows, r) =
      recover_with_code joined false 7
        (codes "aNA")
        (codes "a-b ")
        (codes "new password")
        (supplied joined (codes "v") (3 ∷ []) (codes "u"))
        (record ana { recovery = some ana_hash } ∷ []) in
    (r ≡ done (user_of joined ana, pretty 0 (3 ∷ [])))
    × (authenticate joined false (codes "aNA") (codes "new password") rows
        ≡ done (user_of joined ana))
    × (recover_with_code joined false 9
          (codes "aNA")
          (codes "a-b ")
          (codes "third")
          later_random
          rows
        ≡ (rows, refused bad_recovery))
set_recovery_code-recover_with_code_example =
    set_recovery_code-recover_with_code joined false (some (10 ∷ 11 ∷ [])) (some (codes "t"))
      (ana ∷ []) (record ana { recovery = some ana_hash } ∷ []) ana 7 9 (codes "aNA") (codes "AB")
      (codes "a-b ") (codes "new password") (codes "third") (codes "v") (codes "u") (3 ∷ [])
      later_random ana_found ana_issued ana_types other_code

-- Ana's phone and Bob's tablet are signed in when Ana recovers.
abbrev whose : String → String
whose k = if str_eq k "tablet" then "bob" else "ana"

abbrev nobody_in : Accounts
nobody_in = record { rows = record ana { recovery = some ana_hash } ∷ []; sessions = nobody }

abbrev no_faults : Faults
no_faults = record {
  users = false;
  code = false;
  owner = false;
  destroy = false;
  create = false;
  revoke = false;
}

abbrev recovery : Recovery
recovery = record { username = codes "ana"; code = codes "a-b"; password = codes "new password" }

abbrev fresh_random : Random joined
fresh_random = record {
  salt = some (codes "v");
  code = some (3 ∷ []);
  code_salt = some (codes "u");
}

abbrev two_in : Sessions
two_in = store 100 0 "tablet" "bob" (store 100 0 "phone" "ana" nobody)

abbrev with_phone : Accounts
with_phone = record nobody_in { sessions = two_in }

two_in-Indexed : Indexed 100 whose 1 two_in
unfolding store run_write
two_in-Indexed = Indexed-later 100 whose 0 1 two_in (omega arith) (
    Indexed-run_write 100 whose 0 (stores "tablet") (store 100 0 "phone" "ana" nobody)
      (Indexed-run_write 100 whose 0 (stores "phone") nobody (nobody-Indexed whose)))

phone_recovers :
    sets 100
      (serve 100 joined no_faults 1
        (some "phone")
        "new"
        (recovers fresh_random (some recovery))
        with_phone).1.cookie
    ≡ true
unfolding serve handle_recover recover_with_code find_name equal_fold normalise_code verify_password
    hash_password new_recovery_code pretty symbol start_session create
phone_recovers = refl

serve-Rotated_example :
    Rotated 100 1 "phone" "new"
      (serve 100 joined no_faults 1
        (some "phone")
        "new"
        (recovers fresh_random (some recovery))
        with_phone).0
      (serve 100 joined no_faults 1
        (some "phone")
        "new"
        (recovers fresh_random (some recovery))
        with_phone).1
serve-Rotated_example =
    serve-Rotated 100 joined no_faults 1 "phone" "new" (omega arith) refl refl refl refl
      (recovers fresh_random (some recovery)) with_phone phone_recovers

abbrev laptop_recovers : Accounts × Reply
laptop_recovers =
    handle_recover 100 joined no_faults 1 none "new" fresh_random (some recovery) with_phone

tablet_other : ◌≢◌ {A = String} "tablet" "new"
tablet_other e = ground (arith, (eq_iff "tablet" "new").1 e)

abbrev bob : Entry String
bob = record { value = "bob"; expires = 100 }

ana_answered : laptop_recovers.1.user ≡ some (user_of joined ana)
unfolding handle_recover recover_with_code find_name equal_fold normalise_code verify_password
    hash_password new_recovery_code pretty symbol start_session create
ana_answered = refl

bob_lives : Live 1 "tablet" laptop_recovers.0.sessions bob
unfolding handle_recover recover_with_code find_name equal_fold normalise_code verify_password
    hash_password new_recovery_code pretty symbol start_session create store destroy_all_for revoke
bob_lives = refl

handle_recover-OnlyThis_example : bob.value ≢ "ana"
handle_recover-OnlyThis_example =
    handle_recover-OnlyThis 100 whose joined no_faults 1 none "new" fresh_random (some recovery)
      with_phone refl two_in-Indexed (user_of joined ana) "tablet" bob ana_answered tablet_other
      bob_lives
