-- ===== src/Router/Examples.antt =====
-- One worker's requests: what the theorems on the handlers say there.
use quickworks.Base.{String, some, [], ◌∷◌, List, pos}
use quickworks.Scheduler.Slots.{IsTracked}
use quickworks.Scheduler.Examples.{busy, busy-IsTracked}
use quickworks.Router.{ClaimInput, ClaimDraw, claim, LeaseInput, lease}
use quickworks.Router.Accounting.{claim-IsTracked, lease-IsTracked}
use quickworks.Router.Browser.{Catalog}

abbrev pub plain_hash : String → String
plain_hash s = s

abbrev pub token_hashes : List (String × String)
token_hashes = ("worker", "secret") ∷ []

abbrev pub no_labels : String → List String
no_labels name = []

abbrev claim_input : ClaimInput
claim_input = record { worker_id = "worker"; labels = []; capacity = pos 2 }

abbrev pub claim_draw : ClaimDraw
claim_draw = record {
  now = 150;
  next_year = 31536150;
  lease_id = "l2";
  agent_id = "a2";
  token = "t2";
}

abbrev lease_input : LeaseInput
lease_input = record {
  lease_id = "l1";
  worker_id = "worker";
  error = "";
  level = "info";
  message = "done";
}

claim-IsTracked_example :
    IsTracked
      (claim plain_hash token_hashes no_labels claim_draw "Bearer secret" (some claim_input) busy).1
claim-IsTracked_example =
    claim-IsTracked plain_hash token_hashes no_labels claim_draw "Bearer secret" (some claim_input)
      busy busy-IsTracked

lease-IsTracked_example :
    IsTracked
      (lease plain_hash token_hashes 160 "Bearer secret" "b1" "complete" (some lease_input) busy).1
lease-IsTracked_example =
    lease-IsTracked plain_hash token_hashes 160 "Bearer secret" "b1" "complete" (some lease_input)
      busy busy-IsTracked

abbrev catalog : Catalog
catalog = record { default_template = "vm"; names = "vm" ∷ [] }
