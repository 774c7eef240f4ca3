-- ===== src/Tests/Callers.antt =====
-- A guest and a member behind one address, on a limit of two and one token a second.
use blundernet.Base.{ℕ, ◌+◌, ◌*◌, ◌-◌, ◌≤◌, codes, List, [], ◌∷◌, none, some, true, false, arith}
use blundernet.Store.RateLimit.{Limit, capacity}
use blundernet.Api.Limits.{Request, Addresses}
use blundernet.Api.Limits.Share.{passed, passed_le}

abbrev net : Addresses
net = record { parse_ip = λ t. some t; split_host_port = λ t. some t }

-- Times are tenths of a second, and a token has ten parts.
abbrev two : Limit
two = record { burst = 2; rate = 1 }

abbrev guest : Request
guest = record {
  user = some (record { id = "g"; username = []; is_guest = true });
  forwarded = codes "9.9.9.9, 10.0.0.1";
  remote = codes "172.0.0.1";
}

abbrev member : Request
member = record guest {
  user = some (record { id = "ana"; username = codes "Ana"; is_guest = false });
}

abbrev requests : List (ℕ × Request)
requests = (0, guest) ∷ (1, guest) ∷ (1, member) ∷ (2, guest) ∷ (15, guest) ∷ []

passed_le_example :
    10 * passed 10 10 net true (codes "move") two (codes "move:ip:10.0.0.1") requests (λ k. none)
    ≤ capacity 10 10 two + 1 * (15 - 0)
passed_le_example =
    passed_le 10 10 net true (codes "move") two (omega arith) (omega arith)
      (codes "move:ip:10.0.0.1") 0 requests (λ k. none)
      (omega arith, (omega arith, (omega arith, (omega arith, (omega arith, tt)))))
