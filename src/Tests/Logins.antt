-- ===== src/Tests/Logins.antt =====
-- Sessions of one user: signing in, a look-up, and signing out everywhere.
use blundernet.Base.{ℕ, ◌≡◌, String, none, [], ◌∷◌, List, refl, arith}
use blundernet.Store.Sessions.{Sessions}
use blundernet.Store.Sessions.Spec.{Write, stores, refreshes, forgets, revokes, spec_run, run}
use blundernet.Store.Sessions.Index.{Indexed}
use blundernet.Store.Sessions.Refine.{Same, run_refines}

abbrev pub nobody : Sessions
nobody = record { sessions = λ k. none; index = λ u. none }

abbrev owner : String → String
owner k = "ana"

abbrev writes : List (ℕ × Write)
writes =
    (0, stores "laptop")
    ∷ (5, stores "phone")
    ∷ (90, refreshes "laptop")
    ∷ (1, forgets "phone")
    ∷ (20, revokes "ana")
    ∷ []

pub nobody-Indexed : (owner : String → String) → Indexed 100 owner 0 nobody
nobody-Indexed owner = record {
  timely = λ j e p. ground arith;
  covered = λ j e p l. ground arith;
  owned = λ user j i p q. ground arith;
}

run_refines_example :
    let (end, s) = run 100 owner 0 writes nobody in
    let (end', a) = spec_run 100 owner 0 writes (λ k. none) in
    (end ≡ end') × Indexed 100 owner end s × Same 100 owner end s a
run_refines_example =
    run_refines 100 owner 0 writes nobody (λ k. none) (nobody-Indexed owner) (λ k. refl)
