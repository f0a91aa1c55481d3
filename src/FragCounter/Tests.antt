-- ===== src/FragCounter/Tests.antt =====
-- The counter at concrete slots.
use artdaq.Prelude.Ord.{nat_ord}
use artdaq.FragCounter.{inc_slot, count_receipts, slot_count, inc_slot-count, min_count, min_from}
use artdaq.Prelude.{ℕ, ◌+◌, ◌≡◌, refl, [], ◌∷◌, arith}
use artdaq.Prelude.Words.{u64}
use artdaq.Map.{Assoc}

abbrev two_slots : Assoc ℕ ℕ
two_slots = (1, 5) ∷ (4, 2) ∷ []

smallest : min_count two_slots ≡ 2
unfolding min_count min_from
smallest = refl

inc_slot-count_example :
    (count_receipts (inc_slot 4 3 two_slots) ≡ u64 (count_receipts two_slots + 3))
    × (slot_count 4 (inc_slot 4 3 two_slots) ≡ u64 (slot_count 4 two_slots + 3))
inc_slot-count_example = inc_slot-count 4 3 4 two_slots ((ground arith, tt), (tt, tt))
