-- ===== src/RequestBuffer/Served.antt =====
-- Which requests count as serviced, and the invariant of the buffer (RequestBuffer.cc).
use artdaq.Prelude.{ℕ, ◌≡◌, refl, Bool, ◌||◌, [], ◌∷◌, leb, arith, ltb, ◌==◌, ◌∙◌, true, false}
use artdaq.Prelude.Ord.{nat_ord}
use artdaq.Map.{KeySet, contains, Above, IsSorted, insert}
use artdaq.Map.Laws.{Above-insert, IsSorted-insert, contains-insert, contains-erase, IsSorted-erase}
use artdaq.RequestBuffer.{RequestBuffer, advance, account, new, remove_request}

-- The sequence IDs that count as serviced at a highest request seen and a set of later ones.
unfoldable pub served_at : ℕ → KeySet ℕ → ℕ → Bool
served_at highest out_of_order seq = leb seq highest || contains seq out_of_order

abbrev pub is_served : RequestBuffer → ℕ → Bool
is_served b seq = served_at b.highest_seen_request b.out_of_order_requests seq

advance-served :
    (h : ℕ) (s : KeySet ℕ) (x : ℕ)
    → Above h s
    → IsSorted s
    → served_at (advance 1 h s).0 (advance 1 h s).1 x ≡ served_at h s x
unfolding served_at advance contains
advance-served h [] x a s = refl
advance-served h ((y, u) ∷ ys) x a s = ground (arith, advance-served y ys x s.0 s.1)

advance-IsSorted :
    (h : ℕ) (s : KeySet ℕ)
    → Above h s
    → IsSorted s
    → Above (advance 1 h s).0 (advance 1 h s).1 × IsSorted (advance 1 h s).1
unfolding advance
advance-IsSorted h [] a s = (tt, tt)
advance-IsSorted h ((y, u) ∷ ys) a s = ground (arith, advance-IsSorted y ys s.0 s.1)

-- Inserting a later ID and catching up serves that ID and no other.
insert-advance-served :
    (r h : ℕ) (s : KeySet ℕ) (x : ℕ)
    → Above h s
    → IsSorted s
    → ltb h r ≡ true
    → served_at (advance 1 h (insert r tt s)).0 (advance 1 h (insert r tt s)).1 x
      ≡ ((x == r) || served_at h s x)
insert-advance-served r h s x a o ahead =
    advance-served h (insert r tt s) x (Above-insert h r tt s ahead a) (IsSorted-insert r tt s o)
    ∙ unfold served_at in ground (arith, contains-insert x r tt s)

account-served :
    (r h : ℕ) (s : KeySet ℕ) (x : ℕ)
    → Above h s
    → IsSorted s
    → served_at (account 1 r h s).0 (account 1 r h s).1 x ≡ ((x == r) || served_at h s x)
unfolding account served_at contains
account-served r h [] x a o = ground (arith, insert-advance-served r h [] x a o)
account-served r h (y ∷ ys) x a o = ground (arith, insert-advance-served r h (y ∷ ys) x a o)

insert-advance-IsSorted :
    (r h : ℕ) (s : KeySet ℕ)
    → Above h s
    → IsSorted s
    → ltb h r ≡ true
    → Above (advance 1 h (insert r tt s)).0 (advance 1 h (insert r tt s)).1
      × IsSorted (advance 1 h (insert r tt s)).1
insert-advance-IsSorted r h s a o ahead =
    advance-IsSorted h (insert r tt s) (Above-insert h r tt s ahead a) (IsSorted-insert r tt s o)

account-IsSorted :
    (r h : ℕ) (s : KeySet ℕ)
    → Above h s
    → IsSorted s
    → Above (account 1 r h s).0 (account 1 r h s).1 × IsSorted (account 1 r h s).1
unfolding account
account-IsSorted r h [] a o = ground (arith, insert-advance-IsSorted r h [] a o)
account-IsSorted r h (y ∷ ys) a o = ground (arith, insert-advance-IsSorted r h (y ∷ ys) a o)

-- What holds of a buffer that counts requests one by one: its containers are in order, what is kept
-- out of order lies above the highest request seen, and nothing pending counts as serviced.
pub record IsValid (b : RequestBuffer) : Type 0 where
  pub one_by_one : b.request_increment ≡ 1
  pub requests_sorted : IsSorted b.requests
  pub served_sorted : IsSorted b.out_of_order_requests
  pub served_above : Above b.highest_seen_request b.out_of_order_requests
  pub pending_unserved : (seq : ℕ) → contains seq b.requests ≡ true → is_served b seq ≡ false

pub new-IsValid : IsValid (new 1)
unfolding new contains
new-IsValid = record {
  one_by_one = refl;
  requests_sorted = tt;
  served_sorted = tt;
  served_above = tt;
  pending_unserved = λ seq h. cc;
}

-- Removing a request marks its sequence ID as serviced, and changes that of no other.
pub remove_request-served :
    (b : RequestBuffer) (r x : ℕ)
    → IsValid b
    → is_served (remove_request b r) x ≡ ((x == r) || is_served b x)
unfolding remove_request
remove_request-served b r x v = rw v.one_by_one (
    account-served r b.highest_seen_request b.out_of_order_requests x v.served_above
      v.served_sorted)

pub remove_request-IsValid : (b : RequestBuffer) (r : ℕ) → IsValid b → IsValid (remove_request b r)
unfolding remove_request
remove_request-IsValid b r v =
    let sorted =
      account-IsSorted r b.highest_seen_request b.out_of_order_requests v.served_above
        v.served_sorted in
    record {
      one_by_one = v.one_by_one;
      requests_sorted = IsSorted-erase r b.requests v.requests_sorted;
      served_sorted = rw v.one_by_one sorted.1;
      served_above = rw v.one_by_one sorted.0;
      pending_unserved = λ seq h.
          remove_request-served b r seq v
          ∙ ground (arith, contains-erase seq r b.requests, v.pending_unserved seq);
    }
