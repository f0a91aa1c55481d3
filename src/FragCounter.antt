-- ===== src/FragCounter.antt =====
-- artdaq/DAQrate/detail/FragCounter.hh: the number of fragments received for each slot. The mutex
-- makes each method one step; the hash map is kept in the order of the slots.
mod Tests
use artdaq.Prelude.Ord.{nat_ord}
use artdaq.Map.{Assoc, lookup, insert, IsSorted, Above}
use artdaq.Prelude.{
  ltb, ◌==◌, if◌then◌else◌, length, ℕ, ◌+◌, ◌-◌, ◌^◌, ◌<◌, ◌≡◌, refl, ◌∙◌, none, some, [], ◌∷◌,
  arith, sym, ap, Bool, true, false, Option,
}
use artdaq.Prelude.Words.{u64}
use artdaq.Map.Laws.{lookup-insert}

abbrev or_zero : Option ℕ → ℕ
or_zero none = 0
or_zero (some n) = n

-- `slotCount`
unfoldable pub slot_count : ℕ → Assoc ℕ ℕ → ℕ
slot_count slot receipts = or_zero (lookup slot receipts)

-- `incSlot`; a slot that is new starts at 0.
unfoldable pub inc_slot : ℕ → ℕ → Assoc ℕ ℕ → Assoc ℕ ℕ
inc_slot slot inc receipts = insert slot (u64 (slot_count slot receipts + inc)) receipts

unfoldable pub set_slot : ℕ → ℕ → Assoc ℕ ℕ → Assoc ℕ ℕ
set_slot slot val receipts = insert slot val receipts

unfoldable pub n_slots : Assoc ℕ ℕ → ℕ
n_slots receipts = length receipts

-- The loop of `count`.
unfoldable pub count_from : ℕ → Assoc ℕ ℕ → ℕ
count_from acc [] = acc
count_from acc ((slot, n) ∷ rest) = count_from (u64 (acc + n)) rest

unfoldable pub count_receipts : Assoc ℕ ℕ → ℕ
count_receipts receipts = count_from 0 receipts

-- The loop of `minCount`.
unfoldable pub min_from : ℕ → Assoc ℕ ℕ → ℕ
min_from min [] = min
min_from min ((slot, n) ∷ rest) = min_from (if ltb n min then n else min) rest

unfoldable pub min_count : Assoc ℕ ℕ → ℕ
min_count receipts = min_from (2 ^ 64 - 1) receipts

-- The sum of the counts.
abbrev pub total_receipts : Assoc ℕ ℕ → ℕ
total_receipts [] = 0
total_receipts ((slot, n) ∷ rest) = n + total_receipts rest

count_from_lem :
    (receipts : Assoc ℕ ℕ) (acc : ℕ)
    → u64 (count_from acc receipts) ≡ u64 (acc + total_receipts receipts)
unfolding count_from
count_from_lem [] acc = omega arith
count_from_lem ((slot, n) ∷ rest) acc = count_from_lem rest (u64 (acc + n)) ∙ omega arith

count_from-u64 : (receipts : Assoc ℕ ℕ) (acc : ℕ) → acc < 2 ^ 64 → count_from acc receipts < 2 ^ 64
unfolding count_from
count_from-u64 [] acc h = h
count_from-u64 ((slot, n) ∷ rest) acc h = count_from-u64 rest (u64 (acc + n)) (omega arith)

count_receipts_lem :
    (receipts : Assoc ℕ ℕ) → count_receipts receipts ≡ u64 (total_receipts receipts)
unfolding count_receipts
count_receipts_lem receipts =
    omega (arith, count_from_lem receipts 0, count_from-u64 receipts 0 (omega arith))

Above-lookup : (slot : ℕ) (m : Assoc ℕ ℕ) → Above slot m → lookup slot m ≡ none
unfolding lookup
Above-lookup slot [] a = refl
Above-lookup slot ((j, n) ∷ m) a = ground (arith, Above-lookup slot m a.1)

Above-lookup-below : (slot k : ℕ) (m : Assoc ℕ ℕ) → slot < k → Above k m → lookup slot m ≡ none
unfolding lookup
Above-lookup-below slot k [] h a = refl
Above-lookup-below slot k ((j, n) ∷ m) h a = ground (arith, Above-lookup-below slot k m h a.1)

total-insert :
    (slot val : ℕ) (m : Assoc ℕ ℕ)
    → IsSorted m
    → total_receipts (insert slot val m) + slot_count slot m ≡ total_receipts m + val
unfolding insert slot_count lookup
total-insert slot val [] s = omega arith
total-insert slot val ((j, n) ∷ m) s =
    ground
      (arith, total-insert slot val m s.1, Above-lookup j m s.0, Above-lookup-below slot j m, s.0)

wrapped :
    (after before sum inc : ℕ)
    → after + before ≡ sum + u64 (before + inc)
    → u64 after ≡ u64 (u64 sum + inc)
wrapped after before sum inc h = omega arith

choose :
    (b : Bool) (val : ℕ) (o : Option ℕ)
    → or_zero (if b then some val else o) ≡ (if b then val else or_zero o)
choose true val o = refl
choose false val o = refl

slot_count-insert :
    (slot other val : ℕ) (receipts : Assoc ℕ ℕ)
    → slot_count other (insert slot val receipts)
      ≡ (if slot == other then val else slot_count other receipts)
unfolding slot_count
slot_count-insert slot other val receipts =
    ap or_zero (lookup-insert other slot val receipts)
    ∙ choose (slot == other) val (lookup other receipts)

-- With the slots in order, `incSlot` adds its increment to the total count, modulo 2 ^ 64, and to
-- the count of its slot, and leaves the count of every other slot.
pub inc_slot-count :
    (slot inc other : ℕ) (receipts : Assoc ℕ ℕ)
    → IsSorted receipts
    → (count_receipts (inc_slot slot inc receipts) ≡ u64 (count_receipts receipts + inc))
      × (slot_count other (inc_slot slot inc receipts) ≡ (
          if slot == other
          then u64 (slot_count slot receipts + inc)
          else slot_count other receipts))
unfolding inc_slot slot_count
inc_slot-count slot inc other receipts s =
    let before = slot_count slot receipts in
    let summed = total-insert slot (u64 (before + inc)) receipts s in
    (
      count_receipts_lem (insert slot (u64 (before + inc)) receipts)
          ∙ wrapped (total_receipts (insert slot (u64 (before + inc)) receipts)) before
              (total_receipts receipts) inc summed
          ∙ ap (λ n. u64 (n + inc)) (sym (count_receipts_lem receipts)),
      slot_count-insert slot other (u64 (before + inc)) receipts,
    )
