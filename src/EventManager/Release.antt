-- ===== src/EventManager/Release.antt =====
-- `check_pending_buffers_`: which events are released, in which order, and the tokens that go out.
use artdaq.Prelude.Ord.{nat_ord}
use artdaq.Map.Laws.{contains-erase}
use artdaq.EventManager.{Event, EventManager, SharedMemory, Config, mem}
use artdaq.Prelude.{
  ltb, ◌==◌, ==_iff, Bool-cases, length, All, ℕ, ◌+◌, ◌^◌, ◌≤◌, ◌≡◌, refl, ap, ◌∙◌, inl, inr, false,
  not, ◌&&◌, ◌||◌, List, [], ◌∷◌, arith, ◌%◌,
}
use artdaq.Map.{contains, keys, KeySet}
use artdaq.EventManager.Buffers.{
  insert_by, sort_by, time_out_all, release, release_all, release_order, send_tokens,
  check_pending_buffers,
}

-- Every later buffer has an event with a sequence ID at least as high.
abbrev pub InOrder : (ℕ → Event) → List ℕ → Type 0
InOrder events [] = Unit
InOrder events (b ∷ rest) =
    All (λ c. (events b).event_sequence ≤ (events c).event_sequence) rest × InOrder events rest

All-insert_above :
    (events : ℕ → Event) (low b : ℕ) (bs : List ℕ)
    → low ≤ (events b).event_sequence
    → All (λ c. low ≤ (events c).event_sequence) bs
    → All (λ c. low ≤ (events c).event_sequence) (insert_by events b bs)
unfolding insert_by
All-insert_above events low b [] h a = (h, tt)
All-insert_above events low b (c ∷ rest) h a =
    ground (arith, All-insert_above events low b rest h a.1, h, a.0, a.1)

All-weaken :
    (events : ℕ → Event) (low high : ℕ) (bs : List ℕ)
    → low ≤ high
    → All (λ c. high ≤ (events c).event_sequence) bs
    → All (λ c. low ≤ (events c).event_sequence) bs
All-weaken events low high [] h a = tt
All-weaken events low high (c ∷ rest) h a =
    (omega (arith, a.0), All-weaken events low high rest h a.1)

InOrder-insert_by :
    (events : ℕ → Event) (b : ℕ) (bs : List ℕ)
    → InOrder events bs
    → InOrder events (insert_by events b bs)
unfolding insert_by
InOrder-insert_by events b [] s = (tt, tt)
InOrder-insert_by events b (c ∷ rest) s =
    elim (Bool-cases (ltb (events c).event_sequence (events b).event_sequence)) [
      | inl later ↦ rw later (
        All-insert_above events (events c).event_sequence b rest (ground arith) s.0,
        InOrder-insert_by events b rest s.1,
      )
      | inr here ↦
          let low : (events b).event_sequence ≤ (events c).event_sequence = ground arith in
          rw here (
            (
              low,
              All-weaken events (events b).event_sequence (events c).event_sequence rest low s.0,
            ),
            s,
          )
    ]

InOrder-sort_by : (events : ℕ → Event) (bs : List ℕ) → InOrder events (sort_by events bs)
unfolding sort_by
InOrder-sort_by events [] = tt
InOrder-sort_by events (b ∷ rest) =
    InOrder-insert_by events b (sort_by events rest) (InOrder-sort_by events rest)

mem-insert_by :
    (events : ℕ → Event) (x b : ℕ) (bs : List ℕ)
    → mem x (insert_by events b bs) ≡ (x == b || mem x bs)
unfolding insert_by mem
mem-insert_by events x b [] = refl
mem-insert_by events x b (c ∷ rest) = ground (arith, mem-insert_by events x b rest)

mem-sort_by : (events : ℕ → Event) (x : ℕ) (bs : List ℕ) → mem x (sort_by events bs) ≡ mem x bs
unfolding sort_by mem
mem-sort_by events x [] = refl
mem-sort_by events x (b ∷ rest) =
    mem-insert_by events x b (sort_by events rest)
    ∙ ap (λ o. x == b || o) (mem-sort_by events x rest)

length-insert_by :
    (events : ℕ → Event) (b : ℕ) (bs : List ℕ) → length (insert_by events b bs) ≡ 1 + length bs
unfolding insert_by
length-insert_by events b [] = omega arith
length-insert_by events b (c ∷ rest) = ground (arith, length-insert_by events b rest)

length-sort_by : (events : ℕ → Event) (bs : List ℕ) → length (sort_by events bs) ≡ length bs
unfolding sort_by
length-sort_by events [] = refl
length-sort_by events (b ∷ rest) =
    omega (arith, length-insert_by events b (sort_by events rest), length-sort_by events rest)

length-keys : (m : KeySet ℕ) → length (keys m) ≡ length m
length-keys [] = refl
length-keys ((k, u) ∷ m) = omega (arith, length-keys m)

mem-keys : (x : ℕ) (m : KeySet ℕ) → mem x (keys m) ≡ contains x m
unfolding mem contains
mem-keys x [] = refl
mem-keys x ((k, u) ∷ m) = ground (arith, mem-keys x m, ==_iff x k, ==_iff k x)

no_keys : (m : KeySet ℕ) → ((x : ℕ) → contains x m ≡ false) → m ≡ []
unfolding contains
no_keys [] h = refl
no_keys ((k, u) ∷ m) h = ground (arith, h k, ==_iff k k)

module _ (S : SharedMemory) where
  release_all-pending :
      (bs : List ℕ) (m : EventManager S.Memory) (x : ℕ)
      → contains x (release_all S bs m).pending_buffers
        ≡ (not (mem x bs) && contains x m.pending_buffers)
  unfolding release_all release mem
  release_all-pending [] m x = refl
  release_all-pending (b ∷ rest) m x = ground (
    arith,
    release_all-pending rest (release S m b) x,
    contains-erase x b m.pending_buffers,
    ==_iff x b,
    ==_iff b x,
  )

  release_all-count :
      (bs : List ℕ) (m : EventManager S.Memory)
      → (release_all S bs m).run_event_count % 2 ^ 32 ≡ (m.run_event_count + length bs) % 2 ^ 32
  unfolding release_all release
  release_all-count [] m = omega arith
  release_all-count (b ∷ rest) m = omega (arith, release_all-count rest (release S m b))

  -- The buffers are handed to the readers one after the other.
  abbrev pub mark_all_full : S.Memory → List ℕ → S.Memory
  mark_all_full s [] = s
  mark_all_full s (b ∷ rest) = mark_all_full (S.mark_buffer_full s b) rest

  release_all-memory :
      (bs : List ℕ) (m : EventManager S.Memory)
      → (release_all S bs m).memory ≡ mark_all_full m.memory bs
  unfolding release_all release
  release_all-memory [] m = refl
  release_all-memory (b ∷ rest) m = release_all-memory rest (release S m b)

  -- The state after the buffers that have timed out went to the pending ones.
  abbrev pub timed_out : Config → EventManager S.Memory → EventManager S.Memory
  timed_out c m = time_out_all S c (S.owned m.memory) m

  -- `check_pending_buffers_` marks as full, for the readers, exactly the buffers of the pending events,
  -- those that have just timed out included: each once, one after the other in the order of their
  -- sequence IDs. Each of them counts as an event of the run, modulo 2 ^ 32, and none is left pending.
  pub check_pending-releases :
      (c : Config) (m : EventManager S.Memory)
      → let timed = timed_out c m in
        let order = release_order S timed in
        ((check_pending_buffers S c m).memory ≡ mark_all_full timed.memory order)
        × ((x : ℕ) → mem x order ≡ contains x timed.pending_buffers)
        × (length order ≡ length timed.pending_buffers)
        × InOrder timed.events order
        × ((check_pending_buffers S c m).pending_buffers ≡ [])
        × ((check_pending_buffers S c m).run_event_count % 2 ^ 32
            ≡ (timed.run_event_count + length order) % 2 ^ 32)
  unfolding check_pending_buffers send_tokens release_order
  check_pending-releases c m =
      let timed = timed_out c m in
      let order = sort_by timed.events (keys timed.pending_buffers) in
      let all : (x : ℕ) → mem x order ≡ contains x timed.pending_buffers = λ x.
        mem-sort_by timed.events x (keys timed.pending_buffers)
        ∙ mem-keys x timed.pending_buffers in
      (
        release_all-memory order timed,
        all,
        length-sort_by timed.events (keys timed.pending_buffers)
            ∙ length-keys timed.pending_buffers,
        InOrder-sort_by timed.events (keys timed.pending_buffers),
        no_keys (release_all S order timed).pending_buffers
            (λ x. ground (arith, release_all-pending order timed x, all x)),
        release_all-count order timed,
      )
