-- ===== src/RequestSender/Laws.antt =====
-- The list of active requests is bounded, and a message holds it in order.
use artdaq.Prelude.Ord.{nat_ord}
use artdaq.Map.Trim.{
  keep_last, keep_last-split, IsSorted-keep_last, AllBelow, length-keep_last-exact,
}
use artdaq.RequestSender.{RequestSender, add_request, with_request, send_request}
use artdaq.Prelude.{ltb, if◌then◌else◌, length, ℕ, ◌-◌, ◌≡◌, Bool, ◌++◌, arith}
use artdaq.Map.{Assoc, contains, insert, IsSorted}
use artdaq.Map.Laws.{IsSorted-insert}

-- The requests with the new one, where it is new.
abbrev pub extended : ℕ → ℕ → Assoc ℕ ℕ → Assoc ℕ ℕ
extended seq ts active = if contains seq active then active else insert seq ts active

extended-IsSorted :
    (seq ts : ℕ) (active : Assoc ℕ ℕ) → IsSorted active → IsSorted (extended seq ts active)
extended-IsSorted seq ts active s = ground (arith, IsSorted-insert seq ts active s, s)

send_request-active :
    (now : ℕ) (r : RequestSender) (only : Bool)
    → (send_request now r only).active_requests ≡ r.active_requests
unfolding send_request
send_request-active now r only = ground arith

-- With the active requests in order, `AddRequest` keeps them in order; a request that is active already
-- keeps its timestamp. It drops only what is over the size of one message: afterwards there are as many
-- active requests as with the new one, or that size where it is less, and what was dropped has the
-- lowest sequence IDs.
pub add_request-bounded :
    (max_count now : ℕ) (r : RequestSender) (seq ts : ℕ)
    → IsSorted r.active_requests
    → (length (add_request max_count now r seq ts).active_requests ≡ (
        if ltb max_count (length (extended seq ts r.active_requests))
        then max_count
        else length (extended seq ts r.active_requests)))
      × IsSorted (add_request max_count now r seq ts).active_requests
      × (dropped : Assoc ℕ ℕ) × (extended seq ts r.active_requests
          ≡ dropped ++ (add_request max_count now r seq ts).active_requests)
      × AllBelow dropped (add_request max_count now r seq ts).active_requests
unfolding add_request with_request
add_request-bounded max_count now r seq ts s =
    let all = extended seq ts r.active_requests in
    let sorted = extended-IsSorted seq ts r.active_requests s in
    let split = keep_last-split max_count all sorted in
    rw
      (send_request-active now (record r { active_requests = keep_last max_count all })
        (ltb (now - r.last_request_send_time) r.min_request_interval_ms))
      (
        length-keep_last-exact max_count all,
        IsSorted-keep_last max_count all sorted,
        split.0,
        split.1,
        split.2,
      )
