-- ===== src/RequestSender/Tests.antt =====
-- The sender at concrete requests.
use artdaq.Prelude.Ord.{nat_ord}
use artdaq.Map.Trim.{AllBelow}
use artdaq.Prelude.{length, ℕ, ◌≡◌, true, [], ◌∷◌, ◌++◌, refl, ltb, if◌then◌else◌}
use artdaq.Map.{Assoc, IsSorted}
use artdaq.RequestSender.{new_sender, add_request, RequestSender}
use artdaq.RequestSender.Laws.{extended, add_request-bounded}

abbrev full_sender : RequestSender
full_sender = record (new_sender true 10) { active_requests = (3, 30) ∷ (4, 40) ∷ [] }

add_request-bounded_example :
    (length (add_request 2 100 full_sender 5 50).active_requests ≡ (
      if ltb 2 (length (extended 5 50 full_sender.active_requests))
      then 2
      else length (extended 5 50 full_sender.active_requests)))
    × IsSorted (add_request 2 100 full_sender 5 50).active_requests
    × (dropped : Assoc ℕ ℕ) × (extended 5 50 full_sender.active_requests
        ≡ dropped ++ (add_request 2 100 full_sender 5 50).active_requests)
    × AllBelow dropped (add_request 2 100 full_sender 5 50).active_requests
add_request-bounded_example = add_request-bounded 2 100 full_sender 5 50 ((refl, tt), (tt, tt))
