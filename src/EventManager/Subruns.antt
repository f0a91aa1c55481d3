-- ===== src/EventManager/Subruns.antt =====
-- SharedMemoryEventManager.cc: the map from the first sequence ID of a subrun to its number.
use artdaq.Prelude.Ord.{nat_ord}
use artdaq.Map.Trim.{keep_last, length-keep_last, IsSorted-keep_last}
use artdaq.Prelude.{
  leb, ◌==◌, if◌then◌else◌, Bool-cases, All, ℕ, ◌+◌, ◌%◌, ◌^◌, ◌≤◌, ◌<◌, ◌≡◌, refl, ◌⊎◌, inl, inr,
  Bool, false, ◌||◌, Option, none, some, [], ◌∷◌, arith, length,
}
use artdaq.Prelude.Words.{u64}
use artdaq.Map.{Assoc, lookup, insert, Above, IsSorted}
use artdaq.Map.Laws.{IsSorted-insert}

-- The map after `startRun`, `endRun` and the constructor.
abbrev pub first_subrun : Assoc ℕ ℕ
first_subrun = (0, 1) ∷ []

-- The loop of `GetSubrunForSequenceID`. The source tests the end of the map after it has read the
-- entry there; the model stops at the end.
unfoldable pub subrun_from : ℕ → ℕ → Assoc ℕ ℕ → ℕ
subrun_from subrun seq [] = subrun
subrun_from subrun seq ((boundary, next) ∷ rest) =
    if leb boundary seq then subrun_from next seq rest else subrun

unfoldable pub get_subrun_for_sequence_id : Assoc ℕ ℕ → ℕ → ℕ
get_subrun_for_sequence_id subruns seq = subrun_from 1 seq subruns

-- `rbegin()->second`
unfoldable pub last_subrun : Assoc ℕ ℕ → Option ℕ
last_subrun [] = none
last_subrun ((boundary, subrun) ∷ []) = some subrun
last_subrun (p ∷ q ∷ rest) = last_subrun (q ∷ rest)

unfoldable pub is_last_subrun : ℕ → Option ℕ → Bool
is_last_subrun subrun none = false
is_last_subrun subrun (some last) = last == subrun

-- `rolloverSubrun(boundary, subrun)`; `invalid` is `Fragment::InvalidSequenceID`.
unfoldable pub rollover_subrun : ℕ → ℕ → Assoc ℕ ℕ → ℕ → ℕ → Assoc ℕ ℕ
rollover_subrun invalid max_length subruns boundary subrun =
    if boundary == 0 || boundary == invalid
    then subruns
    else if is_last_subrun subrun (last_subrun subruns)
    then subruns
    else keep_last max_length (insert boundary subrun subruns)

-- The loop of `rolloverSubrun()`: the next sequence ID and subrun number after those of the map.
unfoldable pub next_boundary : ℕ → ℕ → Assoc ℕ ℕ → ℕ × ℕ
next_boundary seq subrun [] = (seq, subrun)
next_boundary seq subrun ((b, s) ∷ rest) =
    next_boundary (if leb seq b then u64 (b + 1) else seq)
      (if leb subrun s then (s + 1) % 2 ^ 32 else subrun) rest

unfoldable pub rollover_next : ℕ → ℕ → Assoc ℕ ℕ → Assoc ℕ ℕ
rollover_next invalid max_length subruns =
    let next = next_boundary 0 0 subruns in rollover_subrun invalid max_length subruns next.0 next.1

-- The subrun of a sequence ID, by the last boundary that is not above it.
abbrev pub IsSubrunOf : Assoc ℕ ℕ → ℕ → ℕ → Type 0
IsSubrunOf subruns seq subrun =
    ((subrun ≡ 1) × All (λ p. seq < p.0) subruns)
    ⊎ ((boundary : ℕ) × (lookup boundary subruns ≡ some subrun)
        × (boundary ≤ seq)
        × All (λ p. (p.0 ≤ boundary) ⊎ (seq < p.0)) subruns)

later_boundaries : (seq k : ℕ) (m : Assoc ℕ ℕ) → seq < k → Above k m → All (λ p. seq < p.0) m
later_boundaries seq k [] h a = tt
later_boundaries seq k ((j, v) ∷ m) h a = (ground (arith, a.0), later_boundaries seq k m h a.1)

above_or :
    (boundary seq : ℕ) (m : Assoc ℕ ℕ)
    → All (λ p. seq < p.0) m
    → All (λ p. (p.0 ≤ boundary) ⊎ (seq < p.0)) m
above_or boundary seq [] a = tt
above_or boundary seq (p ∷ m) a = (inr a.0, above_or boundary seq m a.1)

-- The answer from a later part of the map, or the start value where no boundary there is reached.
abbrev FromRest : ℕ → ℕ → Assoc ℕ ℕ → ℕ → Type 0
FromRest start seq m subrun =
    ((subrun ≡ start) × All (λ p. seq < p.0) m)
    ⊎ ((boundary : ℕ) × (lookup boundary m ≡ some subrun)
        × (boundary ≤ seq)
        × All (λ p. (p.0 ≤ boundary) ⊎ (seq < p.0)) m)

lookup-Above : (k : ℕ) (m : Assoc ℕ ℕ) (b s : ℕ) → Above k m → lookup b m ≡ some s → k < b
unfolding lookup
lookup-Above k [] b s a h = ground arith
lookup-Above k ((j, v) ∷ m) b s a h = ground (arith, lookup-Above k m b s a.1, a.0)

FromRest-step :
    (start seq b n result : ℕ) (m : Assoc ℕ ℕ)
    → b ≤ seq
    → Above b m
    → FromRest n seq m result
    → FromRest start seq ((b, n) ∷ m) result
unfolding lookup
FromRest-step start seq b n result m h a (inl e) =
    inr (b, ground (arith, e.0), h, (inl (omega arith), above_or b seq m e.1))
FromRest-step start seq b n result m h a (inr e) =
    let below = lookup-Above b m e.0 result a e.1 in
    inr (e.0, ground (arith, e.1, below), e.2, (inl (omega arith), e.3))

subrun_from-FromRest :
    (start seq : ℕ) (m : Assoc ℕ ℕ) → IsSorted m → FromRest start seq m (subrun_from start seq m)
unfolding subrun_from
subrun_from-FromRest start seq [] s = inl (refl, tt)
subrun_from-FromRest start seq ((b, n) ∷ m) s = elim (Bool-cases (leb b seq)) [
  | inl reached ↦ rw reached (
      FromRest-step start seq b n (subrun_from n seq m) m (ground arith) s.0
        (subrun_from-FromRest n seq m s.1))
  | inr above ↦ rw above (inl (refl, (ground arith, later_boundaries seq b m (ground arith) s.0)))
]

-- With the boundaries in order, `GetSubrunForSequenceID` answers the subrun of the last boundary
-- that is not above the sequence ID, and 1 where all boundaries are above it.
pub get_subrun-IsSubrunOf :
    (subruns : Assoc ℕ ℕ) (seq : ℕ)
    → IsSorted subruns
    → IsSubrunOf subruns seq (get_subrun_for_sequence_id subruns seq)
unfolding get_subrun_for_sequence_id
get_subrun-IsSubrunOf subruns seq s = subrun_from-FromRest 1 seq subruns s

-- `rolloverSubrun` keeps the boundaries in order and, from a map within it, within the length
-- configured.
pub rollover_subrun-bounded :
    (invalid max_length : ℕ) (subruns : Assoc ℕ ℕ) (boundary subrun : ℕ)
    → IsSorted subruns
    → length subruns ≤ max_length
    → IsSorted (rollover_subrun invalid max_length subruns boundary subrun)
      × (length (rollover_subrun invalid max_length subruns boundary subrun) ≤ max_length)
unfolding rollover_subrun
rollover_subrun-bounded invalid max_length subruns boundary subrun s h =
    let added = insert boundary subrun subruns in
    ground (
      arith,
      IsSorted-keep_last max_length added (IsSorted-insert boundary subrun subruns s),
      length-keep_last max_length added,
      s,
      h,
    )
