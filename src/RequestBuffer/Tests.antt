-- ===== src/RequestBuffer/Tests.antt =====
-- The buffer at concrete requests.
use artdaq.Prelude.{◌==◌, ◌^◌, ◌≡◌, refl, false, ◌||◌, [], ◌∷◌, arith}
use artdaq.Prelude.Ord.{nat_ord}
use artdaq.Map.{contains, insert, erase}
use artdaq.RequestBuffer.{
  push, new, not_ahead, get_next_request, advance, account, remove_request, RequestBuffer,
}
use artdaq.RequestBuffer.Served.{IsValid, is_served, new-IsValid, remove_request-served}
use artdaq.RequestBuffer.Push.{push_far_dropped}
use artdaq.RequestBuffer.Next.{
  Reach-IsValid, removed_stays_removed, Step, Reach, pushes, removes, nexts, serves, here, next,
}

abbrev both_pushed : RequestBuffer
both_pushed = push (push (new 1) 1 100 7) 3 300 9

-- Requests 1 and 3 are pending, and 2 was serviced before them.
abbrev two_pending : RequestBuffer
two_pending = remove_request both_pushed 2

one-Reach : Reach Step (new 1) (push (new 1) 1 100 7)
unfolding new
one-Reach = next here (serves (pushes 1 100 7 (omega arith)))

both_pushed-Reach : Reach Step (new 1) both_pushed
unfolding new push contains not_ahead
both_pushed-Reach = next one-Reach (serves (pushes 3 300 9 (omega arith)))

two_pending-Reach : Reach Step (new 1) two_pending
two_pending-Reach = next both_pushed-Reach (serves (removes 2))

both_pushed-IsValid : IsValid both_pushed
both_pushed-IsValid = Reach-IsValid new-IsValid both_pushed-Reach

two_pending-IsValid : IsValid two_pending
two_pending-IsValid = Reach-IsValid new-IsValid two_pending-Reach

two_pending_requests : two_pending.requests ≡ (1, 100) ∷ (3, 300) ∷ []
unfolding new push remove_request contains insert erase not_ahead account advance
two_pending_requests = refl

catches_up : (remove_request two_pending 1).highest_seen_request ≡ 2
unfolding new push remove_request contains insert erase not_ahead account advance
catches_up = refl

remove_request-served_example :
    is_served (remove_request two_pending 1) 2 ≡ ((2 == 1) || is_served two_pending 2)
remove_request-served_example = remove_request-served two_pending 1 2 two_pending-IsValid

push_far_dropped_example : push (new 1) (2 ^ 31) 5 0 ≡ new 1
unfolding new
push_far_dropped_example =
    push_far_dropped (new 1) (2 ^ 31) 5 0 (omega arith) (omega arith) (omega arith)

Reach-IsValid_example : IsValid two_pending
Reach-IsValid_example = Reach-IsValid new-IsValid two_pending-Reach

removed_stays_removed_example : contains 2 (get_next_request two_pending).0.requests ≡ false
removed_stays_removed_example =
    removed_stays_removed {b = both_pushed} 2 both_pushed-IsValid (next here nexts)
