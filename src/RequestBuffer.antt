-- ===== src/RequestBuffer.antt =====
-- artdaq/DAQrate/RequestBuffer.cc and .hh: the requests that wait for data. The mutex makes each
-- method one step. A `time_point` is a number, and a method that reads the clock takes the reading
-- as an argument. `notify_all` and the response-time metric leave no trace in the state.
pub mod Served
pub mod Push
pub mod Next
mod Tests
use artdaq.Prelude.{
  ℕ, ◌+◌, Bool, true, false, not, ◌||◌, Option, none, some, List, [], ◌∷◌, ltb, leb, ◌==◌,
  if◌then◌else◌,
}
use artdaq.Prelude.Int.{pos, ltb_ℤ}
use artdaq.Prelude.Words.{u64, sub64, to_int}
use artdaq.Prelude.Ord.{nat_ord}
use artdaq.Map.{Assoc, KeySet, lookup, contains, insert, erase, last_key}

pub record RequestBuffer : Type 0 where
  pub requests : Assoc ℕ ℕ
  pub request_timing : Assoc ℕ ℕ
  pub highest_seen_request : ℕ
  pub last_next_request : ℕ
  pub out_of_order_requests : KeySet ℕ
  pub request_increment : ℕ
  pub receiver_running : Bool

unfoldable pub new : ℕ → RequestBuffer
new increment = record {
  requests = [];
  request_timing = [];
  highest_seen_request = 0;
  last_next_request = 0;
  out_of_order_requests = [];
  request_increment = increment;
  receiver_running = false;
}

-- `int delta = seq - highest_seen_request_; delta <= 0`: the difference is taken on `uint64_t` and
-- cut down to an `int`.
unfoldable pub not_ahead : ℕ → ℕ → Bool
not_ahead seq highest = not (ltb_ℤ (pos 0) (to_int (sub64 seq highest)))

-- A request whose sequence ID is pending is left alone, with the same timestamp or with another.
unfoldable pub push : RequestBuffer → ℕ → ℕ → ℕ → RequestBuffer
push b seq ts now =
    if contains seq b.requests
    then b
    else if not_ahead seq b.highest_seen_request || contains seq b.out_of_order_requests
    then b
    else record b {
      requests = insert seq ts b.requests;
      request_timing = insert seq now b.request_timing;
    }

unfoldable pub reset : RequestBuffer → RequestBuffer
reset b = record b {
  requests = [];
  request_timing = [];
  highest_seen_request = 0;
  last_next_request = 0;
  out_of_order_requests = [];
}

pub get_requests : RequestBuffer → Assoc ℕ ℕ
get_requests b = b.requests

-- The first pending request above `last`.
unfoldable pub first_above : ℕ → Assoc ℕ ℕ → Option (ℕ × ℕ)
first_above last [] = none
first_above last ((seq, ts) ∷ rest) = if leb seq last then first_above last rest else some (seq, ts)

unfoldable pub get_next_request : RequestBuffer → RequestBuffer × (ℕ × ℕ)
get_next_request b = elim (first_above b.last_next_request b.requests) [
  | none ↦ (b, (0, 0))
  | some (seq, ts) ↦ (record b { last_next_request = seq }, (seq, ts))
]

-- The loop over `out_of_order_requests_` from its begin: as long as the least entry follows on
-- `highest_seen_request_`, it is taken over.
unfoldable pub advance : ℕ → ℕ → KeySet ℕ → ℕ × KeySet ℕ
advance increment highest [] = (highest, [])
advance increment highest ((seq, u) ∷ rest) =
    if seq == u64 (highest + increment)
    then advance increment seq rest
    else (highest, (seq, u) ∷ rest)

abbrev is_empty {ℓ} : {A : Type ℓ} → List A → Bool
is_empty [] = true
is_empty (x ∷ xs) = false

-- The part of `RemoveRequest` that keeps account of what was serviced.
unfoldable pub account : ℕ → ℕ → ℕ → KeySet ℕ → ℕ × KeySet ℕ
account increment req_id highest out_of_order =
    if ltb highest req_id
    then if not (is_empty out_of_order) || not (req_id == u64 (highest + increment))
      then advance increment highest (insert req_id tt out_of_order)
      else (req_id, out_of_order)
    else (highest, out_of_order)

unfoldable pub remove_request : RequestBuffer → ℕ → RequestBuffer
remove_request b req_id =
    let accounted =
      account b.request_increment req_id b.highest_seen_request b.out_of_order_requests in
    record b {
      requests = erase req_id b.requests;
      request_timing = erase req_id b.request_timing;
      highest_seen_request = accounted.0;
      out_of_order_requests = accounted.1;
    }

unfoldable pub clear_requests : RequestBuffer → RequestBuffer
clear_requests b = record b { requests = [] }

unfoldable pub get_and_clear_requests : RequestBuffer → RequestBuffer × Assoc ℕ ℕ
get_and_clear_requests b = (
  record b {
    requests = [];
    request_timing = [];
    highest_seen_request = last_key b.highest_seen_request b.requests;
    out_of_order_requests = [];
  },
  b.requests,
)

-- `GetRequestTime`; the clock is read where the request is not pending.
unfoldable pub get_request_time : RequestBuffer → ℕ → ℕ → ℕ
get_request_time b req_id now = elim (lookup req_id b.request_timing) [ none ↦ now | some t ↦ t ]

-- What other threads push while `WaitForRequests` waits, oldest first: sequence ID, timestamp, time.
unfoldable pub push_all : RequestBuffer → List (ℕ × ℕ × ℕ) → RequestBuffer
push_all b [] = b
push_all b ((seq, ts, now) ∷ rest) = push_all (push b seq ts now) rest

-- `WaitForRequests`, with the arrivals during the wait.
unfoldable pub wait_for_requests : RequestBuffer → List (ℕ × ℕ × ℕ) → RequestBuffer × Bool
wait_for_requests b arrivals =
    if is_empty b.requests
    then (push_all b arrivals, not (is_empty (push_all b arrivals).requests))
    else (b, true)

unfoldable pub set_running : RequestBuffer → Bool → RequestBuffer
set_running b running = record b { receiver_running = running }
