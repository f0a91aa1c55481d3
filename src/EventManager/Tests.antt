-- ===== src/EventManager/Tests.antt =====
-- The event manager over a small shared memory, at concrete fragments.
use artdaq.Prelude.Ord.{nat_ord}
use artdaq.RequestSender.{new_sender}
use artdaq.EventManager.{SharedMemory, mem, FragmentHeader, Event, Config, EventManager}
use artdaq.Prelude.{
  ◌==◌, if◌then◌else◌, ==_iff, ℕ, suc, ◌+◌, ◌<◌, ◌≡◌, refl, true, false, not, ◌&&◌, some, List, [],
  ◌∷◌, arith, sym, ap, Bool, ◌||◌, Option, none, length, ◌≤◌, ◌-◌, ◌%◌, ◌^◌,
}
use artdaq.Prelude.Int.{pos}
use artdaq.Map.{contains, IsSorted, insert, erase}
use artdaq.EventManager.Buffers.{
  release_order, check_pending_buffers, insert_by, sort_by, time_out, is_timed_out, time_out_all,
}
use artdaq.EventManager.EndOfData.{end_of_data-keeps_open}
use artdaq.EventManager.Open.{add_fragment}
use artdaq.EventManager.Owned.{IsValid}
use artdaq.EventManager.Release.{InOrder, timed_out, check_pending-releases, mark_all_full}
use artdaq.EventManager.Refill.{check_again}
use artdaq.EventManager.Run.{start_run, end_of_data, end_run}
use artdaq.EventManager.Subruns.{
  first_subrun, get_subrun_for_sequence_id, rollover_subrun, IsSubrunOf, get_subrun-IsSubrunOf,
  rollover_subrun-bounded,
}
use artdaq.EventManager.Steps.{Runs-IsValid}
use artdaq.EventManager.Write.{write_fragment_header, done_writing_fragment}
use artdaq.EventManager.Steps.{here, followed, adds, writes, finishes, ends}

abbrev total_of : List ℕ → ℕ
total_of [] = 0
total_of (x ∷ xs) = x + total_of xs

mem-total_of : (x : ℕ) (xs : List ℕ) → total_of xs < x → mem x xs ≡ false
unfolding mem
mem-total_of x [] h = refl
mem-total_of x (y ∷ ys) h = ground (arith, mem-total_of x ys)

abbrev without : ℕ → List ℕ → List ℕ
without b [] = []
without b (x ∷ xs) = if x == b then without b xs else x ∷ without b xs

mem-without : (x b : ℕ) (xs : List ℕ) → mem x (without b xs) ≡ (not (x == b) && mem x xs)
unfolding mem
mem-without x b [] = ground arith
mem-without x b (y ∷ ys) = ground (arith, mem-without x b ys, ==_iff x y, ==_iff y b, ==_iff x b)

small-none :
    (s s' : List ℕ) (o : Bool) (x : ℕ)
    → ◌≡◌ {A = List ℕ × Option ℕ} (suc (total_of s) ∷ s, some (suc (total_of s))) (s', none)
    → mem x s' ≡ mem x s
small-none s s' o x e = cc (ap (λ (r : List ℕ × Option ℕ). r.1) e)

small-fresh :
    (s s' : List ℕ) (o : Bool) (b : ℕ)
    → ◌≡◌ {A = List ℕ × Option ℕ} (suc (total_of s) ∷ s, some (suc (total_of s))) (s', some b)
    → mem b s ≡ false
small-fresh s s' o b e = mem-total_of b s (ground (arith, ap (λ (r : List ℕ × Option ℕ). r.1) e))

small-owned :
    (s s' : List ℕ) (o : Bool) (b x : ℕ)
    → ◌≡◌ {A = List ℕ × Option ℕ} (suc (total_of s) ∷ s, some (suc (total_of s))) (s', some b)
    → mem x s' ≡ (x == b || mem x s)
unfolding mem
small-owned s s' o b x e = ground (
  arith,
  ap (λ (r : List ℕ × Option ℕ). r.1) e,
  sym (ap (λ (r : List ℕ × Option ℕ). mem x r.0) e),
)

-- A memory is the list of the buffers owned; there is always one more to write in, and every buffer
-- has timed out when it is asked for.
abbrev small : SharedMemory
small = record {
  Memory = List ℕ;
  buffer_count = 4;
  owned = λ s. s;
  get_buffer_for_writing = λ s o. (suc (total_of s) ∷ s, some (suc (total_of s)));
  reset_buffer = λ s b. (s, true);
  mark_buffer_full = λ s b. without b s;
  mark_buffer_empty = λ s b. without b s;
  write_ready_count = λ s o. 3;
  increment_write_pos = λ s b n. (s, true);
  touch_buffer = λ s b. s;
  writing-none = small-none;
  writing-fresh = small-fresh;
  writing-owned = small-owned;
  reset-owned = λ s b x. refl;
  full-owned = λ s b x. mem-without x b s;
  touch-owned = λ s b x. refl;
  increment-owned = λ s b n x. refl;
}

abbrev no_event : Event
no_event = record {
  is_complete = false;
  event_run = 0;
  event_subrun = 0;
  event_id = 0;
  event_sequence = 0;
  event_timestamp = 0;
  fragments = [];
}

abbrev idle : EventManager (List ℕ)
idle = record {
  memory = [];
  events = λ b. no_event;
  active_buffers = [];
  pending_buffers = [];
  buffer_writes_pending = λ b. pos 0;
  released_events = [];
  released_incomplete_events = [];
  subrun_event_map = first_subrun;
  run_id = 7;
  running = true;
  run_event_count = 0;
  run_incomplete_event_count = 0;
  oversize_fragment_count = 0;
  requests = none;
  tokens = none;
  dropped_data = [];
  init_fragments = [];
  received_init_frags = [];
}

abbrev two_per_event : Config
two_per_event = record {
  num_fragments_per_event = 2;
  queue_size = 3;
  max_subrun_event_map_length = 100;
  max_event_list_length = 100;
  update_run_ids = true;
  use_sequence_id_for_event_number = true;
  overwrite_mode = false;
  init_fragment_count = 0;
  maximum_oversize_fragment_count = pos 1;
  max_request_count = 10;
  header_words = 4;
  event_header_size = 32;
  word_size = 8;
}

abbrev fragment : ℕ → FragmentHeader
fragment id = record {
  word_count = 10;
  fragment_type = 1;
  fragment_id = id;
  sequence_id = 5;
  timestamp = 50;
  is_header_valid = true;
}

idle-IsValid : IsValid small idle
unfolding mem contains
idle-IsValid = record {
  tracked = λ x. refl;
  apart = λ x. refl;
  distinct = λ x y h k e. ground arith;
}

abbrev equal_ids : FragmentHeader → FragmentHeader → Bool
equal_ids f g = f.fragment_id == g.fragment_id

-- A fragment that is written in place, one that is added whole, and the end of the run.
abbrev one_written : EventManager (List ℕ)
one_written = (write_fragment_header small 0 equal_ids two_per_event 0 idle (fragment 1) false).0

abbrev both_there : EventManager (List ℕ)
both_there =
    (add_fragment small two_per_event 1
      (done_writing_fragment small 0 equal_ids two_per_event 0 one_written (fragment 1)).0
      (fragment 2)).0

Runs-IsValid_example : IsValid small (end_run small both_there)
Runs-IsValid_example =
    Runs-IsValid small 0 equal_ids {c = two_per_event} {m = idle}
      (followed
        (followed (followed (followed here (writes 0 (fragment 1) false)) (finishes 0 (fragment 1)))
          (adds 1 (fragment 2)))
        ends)
      idle-IsValid

-- Two open events whose buffers have timed out, the later one in the lower buffer.
abbrev two_stale : EventManager (List ℕ)
two_stale = record idle {
  memory = 3 ∷ 4 ∷ [];
  events = λ b. record no_event { event_sequence = 20 - b };
  active_buffers = (3, tt) ∷ (4, tt) ∷ [];
}

check_pending-releases_example :
    ((check_pending_buffers small two_per_event two_stale).memory
      ≡ mark_all_full small
          (timed_out small two_per_event two_stale).memory
          (release_order small (timed_out small two_per_event two_stale)))
    × ((x : ℕ)
        → mem x (release_order small (timed_out small two_per_event two_stale))
          ≡ contains x (timed_out small two_per_event two_stale).pending_buffers)
    × (length (release_order small (timed_out small two_per_event two_stale))
        ≡ length (timed_out small two_per_event two_stale).pending_buffers)
    × InOrder
        (timed_out small two_per_event two_stale).events
        (release_order small (timed_out small two_per_event two_stale))
    × ((check_pending_buffers small two_per_event two_stale).pending_buffers ≡ [])
    × ((check_pending_buffers small two_per_event two_stale).run_event_count % 2 ^ 32
        ≡ ((timed_out small two_per_event two_stale).run_event_count
            + length (release_order small (timed_out small two_per_event two_stale)))
          % 2 ^ 32)
check_pending-releases_example = check_pending-releases small two_per_event two_stale

stale_order : release_order small (timed_out small two_per_event two_stale) ≡ 4 ∷ 3 ∷ []
unfolding release_order time_out_all is_timed_out time_out contains insert sort_by insert_by
    artdaq.Map.erase
stale_order = refl

-- Three buffers to write in, and one token sent for a buffer that is free by now.
abbrev one_sent : EventManager (List ℕ)
one_sent = record idle {
  run_event_count = 1;
  tokens = some (record { tokens_sent = 1; in_flight = 0 });
}

check_again_example :
    (check_pending_buffers small two_per_event
      (check_pending_buffers small two_per_event one_sent)).tokens
    ≡ some (record { tokens_sent = 1; in_flight = 6 })
check_again_example =
    check_again small two_per_event one_sent (record { tokens_sent = 1; in_flight = 0 }) refl refl
      refl refl (omega arith) (omega arith) (omega arith) (omega arith)

abbrev three_subruns : List (ℕ × ℕ)
three_subruns = (0, 1) ∷ (10, 2) ∷ (20, 3) ∷ []

three_subruns-IsSorted : IsSorted three_subruns
three_subruns-IsSorted = ((refl, (refl, tt)), ((refl, tt), (tt, tt)))

get_subrun-IsSubrunOf_example :
    IsSubrunOf three_subruns 15 (get_subrun_for_sequence_id three_subruns 15)
get_subrun-IsSubrunOf_example = get_subrun-IsSubrunOf three_subruns 15 three_subruns-IsSorted

rollover_subrun-bounded_example :
    IsSorted (rollover_subrun 0 3 three_subruns 30 4)
    × (length (rollover_subrun 0 3 three_subruns 30 4) ≤ 3)
rollover_subrun-bounded_example =
    rollover_subrun-bounded 0 3 three_subruns 30 4 three_subruns-IsSorted (omega arith)

-- The same memory before any buffer has timed out.
abbrev fresh_memory : SharedMemory
fresh_memory = record {
  Memory = List ℕ;
  buffer_count = 4;
  owned = λ s. s;
  get_buffer_for_writing = λ s o. (suc (total_of s) ∷ s, some (suc (total_of s)));
  reset_buffer = λ s b. (s, false);
  mark_buffer_full = λ s b. without b s;
  mark_buffer_empty = λ s b. without b s;
  write_ready_count = λ s o. 3;
  increment_write_pos = λ s b n. (s, true);
  touch_buffer = λ s b. s;
  writing-none = small-none;
  writing-fresh = small-fresh;
  writing-owned = small-owned;
  reset-owned = λ s b x. refl;
  full-owned = λ s b x. mem-without x b s;
  touch-owned = λ s b x. refl;
  increment-owned = λ s b n x. refl;
}

abbrev one_open : EventManager (List ℕ)
one_open = record idle { memory = 1 ∷ []; active_buffers = (1, tt) ∷ [] }

end_of_data-keeps_open_example :
    ((end_of_data fresh_memory two_per_event (λ m. m) (λ s. s) one_open).run_event_count ≡ 0)
    × ((end_of_data fresh_memory two_per_event (λ m. m) (λ s. s) one_open).pending_buffers ≡ [])
    × ((start_run fresh_memory two_per_event 8
          (new_sender true 10)
          true
          (end_of_data fresh_memory two_per_event (λ m. m) (λ s. s) one_open)).active_buffers
        ≡ (1, tt) ∷ [])
end_of_data-keeps_open_example =
    end_of_data-keeps_open fresh_memory (λ s. Unit {0}) (λ s b u. (refl, tt)) two_per_event (λ m. m)
      (λ s. s) 8 (new_sender true 10) true one_open (λ b. refl) refl tt
