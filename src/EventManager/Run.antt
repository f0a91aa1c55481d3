-- ===== src/EventManager/Run.antt =====
-- SharedMemoryEventManager.cc: the start and the end of a run and of the data, and init fragments.
-- The processes of art and the broadcasts' shared memory are outside the model: a broadcast is what
-- it would write, if it gets a buffer.
use artdaq.Prelude.Ord.{nat_ord}
use artdaq.RequestSender.{RequestSender, set_run_number}
use artdaq.EventManager.{EventManager, SharedMemory, Config, FragmentHeader}
use artdaq.EventManager.Subruns.{first_subrun, get_subrun_for_sequence_id}
use artdaq.EventManager.Buffers.{complete_buffer}
use artdaq.Prelude.{
  leb, ◌==◌, if◌then◌else◌, length, ℕ, zero, suc, ◌%◌, ◌^◌, Bool, true, false, ◌&&◌, Option, none,
  some, List, [], ◌∷◌, ◌++◌,
}
use artdaq.Map.{Assoc, contains, insert, KeySet}

-- What `broadcastFragments_` writes: the fragments that share sequence ID and type with the first.
unfoldable pub broadcast_like : FragmentHeader → List FragmentHeader → List FragmentHeader
broadcast_like first [] = []
broadcast_like first (f ∷ rest) =
    if f.sequence_id == first.sequence_id && f.fragment_type == first.fragment_type
    then f ∷ broadcast_like first rest
    else broadcast_like first rest

-- A broadcast: run, subrun, sequence ID and fragments.
pub record Broadcast : Type 0 where
  pub broadcast_run : ℕ
  pub broadcast_subrun : ℕ
  pub broadcast_sequence : ℕ
  pub contents : List FragmentHeader

unfoldable pub broadcast_fragments : ℕ → Assoc ℕ ℕ → Bool → List FragmentHeader → Option Broadcast
broadcast_fragments run subruns has_buffer [] = none
broadcast_fragments run subruns has_buffer (f ∷ rest) =
    if has_buffer
    then some (record {
      broadcast_run = run;
      broadcast_subrun = get_subrun_for_sequence_id subruns f.sequence_id;
      broadcast_sequence = f.sequence_id;
      contents = broadcast_like f (f ∷ rest);
    })
    else none

module _ (S : SharedMemory) where
  -- `send_init_frags_`; `empty_init` is the init fragment without data that the source makes.
  unfoldable pub send_init_frags :
      Config → FragmentHeader → Bool → EventManager S.Memory → Option Broadcast
  send_init_frags c empty_init has_buffer m =
      if c.init_fragment_count == 0
      then broadcast_fragments m.run_id m.subrun_event_map has_buffer (empty_init ∷ [])
      else if leb c.init_fragment_count (length m.init_fragments)
      then broadcast_fragments m.run_id m.subrun_event_map has_buffer m.init_fragments
      else none

  unfoldable pub add_init_fragment :
      Config
      → FragmentHeader
      → Bool
      → EventManager S.Memory
      → FragmentHeader
      → EventManager S.Memory × Option Broadcast
  add_init_fragment c empty_init has_buffer m f =
      let m' = record m {
        received_init_frags = insert f.fragment_id tt m.received_init_frags;
        init_fragments = m.init_fragments ++ f ∷ [];
      } in
      if contains f.fragment_id m.received_init_frags then (m, none) else (
        m',
        if leb c.init_fragment_count (length m'.init_fragments)
            then send_init_frags c empty_init has_buffer m'
            else none,
      )

  -- `startRun`, with the new request sender and, if a routing manager is used, the token sender.
  unfoldable pub start_run :
      Config → ℕ → RequestSender → Bool → EventManager S.Memory → EventManager S.Memory
  start_run c run sender use_routing_manager m = record m {
    running = true;
    init_fragments = [];
    received_init_frags = [];
    released_events = [];
    released_incomplete_events = [];
    run_id = run;
    subrun_event_map = first_subrun;
    run_event_count = 0;
    run_incomplete_event_count = 0;
    requests = some (set_run_number sender (run % 2 ^ 32));
    tokens =
        if use_routing_manager
        then some (record { tokens_sent = 0; in_flight = c.queue_size })
        else m.tokens;
  }

  unfoldable pub end_run : EventManager S.Memory → EventManager S.Memory
  end_run m = record m {
    requests = none;
    tokens = none;
    run_event_count = 0;
    run_incomplete_event_count = 0;
    oversize_fragment_count = 0;
    subrun_event_map = first_subrun;
  }

  -- `complete_buffer_(*active_buffers_.begin())`, where there is an open event.
  unfoldable pub flush_first : Config → KeySet ℕ → EventManager S.Memory → EventManager S.Memory
  flush_first c [] m = m
  flush_first c ((b, u) ∷ rest) m = complete_buffer S c m b

  -- The loop of `endOfData` over the open events, which runs `counter` times at most.
  unfoldable pub flush : Config → ℕ → EventManager S.Memory → EventManager S.Memory
  flush c zero m = m
  flush c (suc counter) m = flush c counter (flush_first c m.active_buffers m)

  unfoldable pub empty_from : ℕ → S.Memory → S.Memory
  empty_from zero s = s
  empty_from (suc n) s = S.mark_buffer_empty (empty_from n s) n

  -- `endOfData`; `written` is what the writers do while it waits for their pending writes, and
  -- `drained` what the readers do to the memory while it waits for them.
  unfoldable pub end_of_data :
      Config
      → (EventManager S.Memory → EventManager S.Memory)
      → (S.Memory → S.Memory)
      → EventManager S.Memory
      → EventManager S.Memory
  end_of_data c written drained m =
      let stopped =
        written (record m { running = false; init_fragments = []; received_init_frags = [] }) in
      let flushed = flush c (length stopped.active_buffers) stopped in
      record flushed {
        memory = empty_from S.buffer_count (drained flushed.memory);
        released_events = [];
        released_incomplete_events = [];
      }
