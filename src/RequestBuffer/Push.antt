-- ===== src/RequestBuffer/Push.antt =====
-- `RequestBuffer::push`: which requests are taken, and the 32-bit difference that decides it.
use artdaq.Prelude.{
  ℕ, leb, ◌==◌, if◌then◌else◌, ◌+◌, ◌^◌, ◌≤◌, ◌<◌, ◌≡◌, ap, true, not, ◌&&◌, ◌||◌, some, arith,
}
use artdaq.Prelude.Ord.{nat_ord}
use artdaq.Map.{lookup, contains}
use artdaq.Map.Laws.{lookup-insert, contains-insert, IsSorted-insert}
use artdaq.RequestBuffer.{push, not_ahead, RequestBuffer}
use artdaq.RequestBuffer.Served.{IsValid, served_at, is_served}

-- The two sequence IDs are `uint64_t` values less than 2 ^ 31 apart, so that their difference fits
-- an `int`.
abbrev pub IsNear : ℕ → ℕ → Type 0
IsNear seq highest =
    (seq < 2 ^ 64) × (highest < 2 ^ 64) × (seq < highest + 2 ^ 31) × (highest < seq + 2 ^ 31)

not_ahead-near : (seq highest : ℕ) → IsNear seq highest → not_ahead seq highest ≡ leb seq highest
unfolding not_ahead
not_ahead-near seq highest n = ground arith

not_ahead-far :
    (seq highest : ℕ)
    → seq < 2 ^ 64
    → highest + 2 ^ 31 ≤ seq
    → seq ≤ highest + 2 ^ 32
    → not_ahead seq highest ≡ true
unfolding not_ahead
not_ahead-far seq highest b l u = ground arith

-- A request near the highest one seen is pending afterwards exactly if it was, or if it was not
-- serviced yet.
pub push-contains :
    (b : RequestBuffer) (seq ts now x : ℕ)
    → IsNear seq b.highest_seen_request
    → contains x (push b seq ts now).requests
      ≡ (contains x b.requests || (seq == x && not (is_served b seq)))
unfolding push served_at
push-contains b seq ts now x n = ground (
  arith,
  not_ahead-near seq b.highest_seen_request n,
  contains-insert x seq ts b.requests,
  contains-congr,
)
  where
    contains-congr : seq ≡ x → contains seq b.requests ≡ contains x b.requests
    contains-congr e = ap (λ k. contains k b.requests) e

-- A taken request keeps its timestamp, and every other entry keeps its own.
pub push-lookup :
    (b : RequestBuffer) (seq ts now x : ℕ)
    → IsNear seq b.highest_seen_request
    → lookup x (push b seq ts now).requests ≡ (
        if seq == x && not (contains seq b.requests) && not (is_served b seq)
        then some ts
        else lookup x b.requests)
unfolding push served_at
push-lookup b seq ts now x n =
    ground (arith, not_ahead-near seq b.highest_seen_request n, lookup-insert x seq ts b.requests)

pub push-IsValid :
    (b : RequestBuffer) (seq ts now : ℕ)
    → IsNear seq b.highest_seen_request
    → IsValid b
    → IsValid (push b seq ts now)
unfolding push
push-IsValid b seq ts now n v = record {
  one_by_one = ground arith;
  requests_sorted = ground (arith, IsSorted-insert seq ts b.requests v.requests_sorted);
  served_sorted = ground arith;
  served_above = ground arith;
  pending_unserved = λ x h. ground (arith, push-contains b seq ts now x n, v.pending_unserved x);
}

-- A request from 2 ^ 31 to 2 ^ 32 IDs ahead of the highest one seen is dropped, though nobody
-- serviced it: the difference does not fit the `int` that holds it.
pub push_far_dropped :
    (b : RequestBuffer) (seq ts now : ℕ)
    → seq < 2 ^ 64
    → b.highest_seen_request + 2 ^ 31 ≤ seq
    → seq ≤ b.highest_seen_request + 2 ^ 32
    → push b seq ts now ≡ b
unfolding push
push_far_dropped b seq ts now w l u = ground (arith, not_ahead-far seq b.highest_seen_request w l u)
