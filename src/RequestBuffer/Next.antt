-- ===== src/RequestBuffer/Next.antt =====
-- `RequestBuffer::GetNextRequest`, and what holds over every sequence of calls.
use artdaq.Prelude.{
  ℕ, leb, Bool-cases, All, ◌≤◌, ◌<◌, ◌≡◌, refl, ◌⊎◌, inl, inr, Option, none, some, [], ◌∷◌, arith,
  ◌∙◌, true, false,
}
use artdaq.Prelude.Ord.{nat_ord}
use artdaq.Map.{lookup, Assoc, contains, Above, IsSorted}
use artdaq.RequestBuffer.{
  push, first_above, get_next_request, remove_request, clear_requests, get_and_clear_requests,
  RequestBuffer,
}
use artdaq.RequestBuffer.Served.{IsValid, remove_request-IsValid, is_served, remove_request-served}
use artdaq.RequestBuffer.Push.{IsNear, push-IsValid}

-- What `GetNextRequest` owes its caller: the least pending request above the last one it returned,
-- with its timestamp, which it remembers; or (0, 0), when none is above.
abbrev pub IsNext : RequestBuffer → RequestBuffer × (ℕ × ℕ) → Type 0
IsNext b r =
    ((r.1 ≡ (0, 0)) × (r.0 ≡ b) × All (λ p. p.0 ≤ b.last_next_request) b.requests)
    ⊎ ((b.last_next_request < r.1.0)
        × (r.0 ≡ record b { last_next_request = r.1.0 })
        × (lookup r.1.0 b.requests ≡ some r.1.1)
        × All (λ p. (p.0 ≤ b.last_next_request) ⊎ (r.1.0 ≤ p.0)) b.requests)

abbrev FirstAbove : ℕ → Assoc ℕ ℕ → Option (ℕ × ℕ) → Type 0
FirstAbove last m none = All (λ p. p.0 ≤ last) m
FirstAbove last m (some r) =
    (last < r.0) × (lookup r.0 m ≡ some r.1) × All (λ p. (p.0 ≤ last) ⊎ (r.0 ≤ p.0)) m

All-Above : (k last : ℕ) (m : Assoc ℕ ℕ) → Above k m → All (λ p. (p.0 ≤ last) ⊎ (k ≤ p.0)) m
All-Above k last [] a = tt
All-Above k last ((j, v) ∷ m) a = (inr (ground arith), All-Above k last m a.1)

FirstAbove-skip :
    (last k v : ℕ) (m : Assoc ℕ ℕ) (r : Option (ℕ × ℕ))
    → k ≤ last
    → FirstAbove last m r
    → FirstAbove last ((k, v) ∷ m) r
unfolding lookup
FirstAbove-skip last k v m none h f = (h, f)
FirstAbove-skip last k v m (some r) h f = (f.0, ground arith, (inl h, f.2))

first_above_lem : (last : ℕ) (m : Assoc ℕ ℕ) → IsSorted m → FirstAbove last m (first_above last m)
unfolding first_above lookup
first_above_lem last [] s = tt
first_above_lem last ((k, v) ∷ m) s = elim (Bool-cases (leb k last)) [
  | inl low ↦ rw low (FirstAbove-skip last k v m _ (ground arith) (first_above_lem last m s.1))
  | inr high ↦ rw high (ground arith, ground arith, (inr (ground arith), All-Above k last m s.0))
]

-- With the pending requests in increasing order, `GetNextRequest` answers the first one above the
-- last one it gave, and remembers it; where none is left it answers zeros and changes nothing.
pub get_next_request-IsNext :
    (b : RequestBuffer) → IsSorted b.requests → IsNext b (get_next_request b)
unfolding get_next_request
get_next_request-IsNext b s =
    go (first_above b.last_next_request b.requests) refl
      (first_above_lem b.last_next_request b.requests s)
  where
    go :
        (o : Option (ℕ × ℕ))
        → first_above b.last_next_request b.requests ≡ o
        → FirstAbove b.last_next_request b.requests o
        → IsNext b (get_next_request b)
    go none e f = rw (e, get_next_request) (inl (refl, refl, f))
    go (some r) e f = rw (e, get_next_request) (inr (f.0, refl, f.1, f.2))

-- The calls that only add to the record of what was serviced, a push under its condition.
pub data Serve (b : RequestBuffer) : RequestBuffer → Type 0 where
  pushes : (seq ts now : ℕ) → IsNear seq b.highest_seen_request → Serve b (push b seq ts now)
  removes : (seq : ℕ) → Serve b (remove_request b seq)
  nexts : Serve b (get_next_request b).0
  clears : Serve b (clear_requests b)

-- All calls between two resets.
pub data Step (b : RequestBuffer) : RequestBuffer → Type 0 where
  serves : {c : RequestBuffer} → Serve b c → Step b c
  collects : Step b (get_and_clear_requests b).0

pub data Reach (R : RequestBuffer → RequestBuffer → Type 0) (b : RequestBuffer)
    : RequestBuffer → Type 0 where
  here : Reach R b b
  next : {c d : RequestBuffer} → Reach R b c → R c d → Reach R b d

next-IsValid : (b : RequestBuffer) → IsValid b → IsValid (get_next_request b).0
unfolding get_next_request
next-IsValid b v = ground (arith)

empty-IsValid :
    (b : RequestBuffer)
    → b.request_increment ≡ 1
    → b.requests ≡ []
    → b.out_of_order_requests ≡ []
    → IsValid b
unfolding contains
empty-IsValid b i r o = record {
  one_by_one = i;
  requests_sorted = rw r tt;
  served_sorted = rw o tt;
  served_above = rw o tt;
  pending_unserved = λ seq h. ground arith;
}

clear-IsValid : (b : RequestBuffer) → IsValid b → IsValid (clear_requests b)
unfolding clear_requests contains
clear-IsValid b v = record {
  one_by_one = v.one_by_one;
  requests_sorted = tt;
  served_sorted = v.served_sorted;
  served_above = v.served_above;
  pending_unserved = λ seq h. ground arith;
}

collect-IsValid : (b : RequestBuffer) → IsValid b → IsValid (get_and_clear_requests b).0
unfolding get_and_clear_requests
collect-IsValid b v = empty-IsValid _ v.one_by_one refl refl

Serve-IsValid : {b c : RequestBuffer} → Serve b c → IsValid b → IsValid c
Serve-IsValid {b} (pushes seq ts now n) v = push-IsValid b seq ts now n v
Serve-IsValid {b} (removes seq) v = remove_request-IsValid b seq v
Serve-IsValid {b} nexts v = next-IsValid b v
Serve-IsValid {b} clears v = clear-IsValid b v

Step-IsValid : {b c : RequestBuffer} → Step b c → IsValid b → IsValid c
Step-IsValid (serves s) v = Serve-IsValid s v
Step-IsValid {b} collects v = collect-IsValid b v

-- Every sequence of calls keeps the buffer well-formed.
pub Reach-IsValid : {b c : RequestBuffer} → IsValid b → Reach Step b c → IsValid c
Reach-IsValid v here = v
Reach-IsValid v (next r s) = Step-IsValid s (Reach-IsValid v r)

Serve-served :
    {b c : RequestBuffer} (x : ℕ)
    → Serve b c
    → IsValid b
    → is_served b x ≡ true
    → is_served c x ≡ true
unfolding push get_next_request clear_requests
Serve-served {b} x (pushes seq ts now n) v h = ground arith
Serve-served {b} x (removes seq) v h = remove_request-served b seq x v ∙ ground arith
Serve-served {b} x nexts v h = ground arith
Serve-served {b} x clears v h = h

Reach-served :
    {b c : RequestBuffer} (x : ℕ)
    → IsValid b
    → is_served b x ≡ true
    → Reach Serve b c
    → IsValid c × (is_served c x ≡ true)
Reach-served x v h here = (v, h)
Reach-served x v h (next r s) =
    let (v', h') = Reach-served x v h r in (Serve-IsValid s v', Serve-served x s v' h')

-- A request that was removed is never pending again, whatever is pushed, removed or cleared after.
pub removed_stays_removed :
    {b c : RequestBuffer} (x : ℕ)
    → IsValid b
    → Reach Serve (remove_request b x) c
    → contains x c.requests ≡ false
removed_stays_removed {b} {c} x v r =
    let served : is_served (remove_request b x) x ≡ true =
      remove_request-served b x x v ∙ ground arith in
    let after : IsValid c × (is_served c x ≡ true) =
      Reach-served x (remove_request-IsValid b x v) served r in
    ground (arith, after.0.pending_unserved x)
