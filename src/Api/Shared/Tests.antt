-- ===== src/Api/Shared/Tests.antt =====
-- The shared state's theorems for two connections.
use rs_matter_server.Prelude.{ℕ, ◌≡◌, ◌↔◌, true, false, List, [], ◌∷◌, arith}
use rs_matter_server.Api.Shared.{
  Sender, Request, claims, releases, run, claim_fabric_label, IsKept, label_is_owned,
}

abbrev reader : Sender ℕ
reader = record { queue = 1 ∷ []; closed = false }

abbrev gone : Sender ℕ
gone = record { queue = []; closed = true }

abbrev reported : List ℕ
reported = 1 ∷ 2 ∷ []

abbrev owner : ℕ
owner = 3

abbrev stranger : ℕ
stranger = 4

abbrev requests : List Request
requests = claims 4 ∷ releases 4 ∷ claims 3 ∷ []

kept : IsKept 3 requests
kept = (λ e. omega arith, tt)

label_is_owned_example :
    ((claim_fabric_label stranger (run (claim_fabric_label owner 0).1 requests)).0 ≡ true)
    ↔ (stranger ≡ owner)
label_is_owned_example = label_is_owned owner stranger requests (omega arith) kept
