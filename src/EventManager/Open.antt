-- ===== src/EventManager/Open.antt =====
-- SharedMemoryEventManager.cc: `getBufferForSequenceID_`, and how fragments come into an event.
use artdaq.Prelude.Ord.{nat_ord}
use artdaq.RequestSender.{RequestSender, send_request}
use artdaq.EventManager.{EventManager, SharedMemory, Event, Config, FragmentHeader}
use artdaq.EventManager.Subruns.{get_subrun_for_sequence_id}
use artdaq.EventManager.Buffers.{
  update, find_buffer, ask_for, check_pending_buffers, complete_buffer,
}
use artdaq.Prelude.Words.{u64}
use artdaq.Prelude.{
  ◌==◌, if◌then◌else◌, length, ℕ, ◌*◌, ◌%◌, ◌^◌, Bool, true, false, not, ◌&&◌, ◌||◌, Option, none,
  some, [], ◌∷◌, ◌++◌,
}
use artdaq.Map.{Assoc, contains, insert, KeySet}
use artdaq.Prelude.Int.{eqb_ℤ, pos}

-- The result of `getBufferForSequenceID_`: a buffer, -1 or -2.
pub data Found : Type 0 where
  found : ℕ → Found
  unavailable already_released : Found

-- The event of a new buffer. `use_sequence_id_for_event_number_` picks the 32-bit event number.
unfoldable pub new_event : Config → ℕ → ℕ → ℕ → ℕ → Event
new_event c run subrun seq ts = record {
  is_complete = false;
  event_run = run;
  event_subrun = subrun;
  event_id = (if c.use_sequence_id_for_event_number then seq else ts) % 2 ^ 32;
  event_sequence = seq;
  event_timestamp = ts;
  fragments = [];
}

unfoldable pub is_released : ℕ → KeySet ℕ → Assoc ℕ ℕ → Bool
is_released seq released incomplete = contains seq incomplete || contains seq released

-- `if (requests_) requests_->SendRequest(true)`
unfoldable pub poke_requests : ℕ → Option RequestSender → Option RequestSender
poke_requests now none = none
poke_requests now (some r) = some (send_request now r true)

-- What `AddFragment` comes to: false; true, which is said of a late fragment too; or the exception by
-- which `Write` detaches where the fragment does not fit.
pub data Added : Type 0 where
  not_added is_added write_failed : Added

module _ (S : SharedMemory) where
  unfoldable pub open_event :
      Config → ℕ → EventManager S.Memory → S.Memory → ℕ → ℕ → ℕ → EventManager S.Memory
  open_event c now m memory b seq ts = record m {
    memory = memory;
    events =
        update m.events b
          (new_event c m.run_id (get_subrun_for_sequence_id m.subrun_event_map seq) seq ts);
    buffer_writes_pending = update m.buffer_writes_pending b (pos 0);
    active_buffers = insert b tt m.active_buffers;
    requests = ask_for c now m.requests seq ts;
  }

  -- The event goes into the buffer that the shared memory gives, if it gives one.
  unfoldable pub open_in :
      Config
      → ℕ
      → EventManager S.Memory
      → ℕ
      → ℕ
      → S.Memory × Option ℕ
      → EventManager S.Memory × Found
  open_in c now m seq ts (memory, none) = (record m { memory = memory }, unavailable)
  open_in c now m seq ts (memory, some b) =
      (open_event c now m (S.increment_write_pos memory b c.event_header_size).0 b seq ts, found b)

  -- A free buffer, and if there is none one that may be overwritten.
  unfoldable pub retry : Bool → S.Memory × Option ℕ → S.Memory × Option ℕ
  retry overwrite (s, none) = S.get_buffer_for_writing s overwrite
  retry overwrite (s, some b) = (s, some b)

  unfoldable pub writable : Config → S.Memory → S.Memory × Option ℕ
  writable c s = retry c.overwrite_mode (S.get_buffer_for_writing s false)

  unfoldable pub new_buffer :
      Config → ℕ → EventManager S.Memory → Bool → ℕ → ℕ → EventManager S.Memory × Found
  new_buffer c now m create seq ts =
      let checked = check_pending_buffers S c m in
      if is_released seq m.released_events m.released_incomplete_events
      then (m, already_released)
      else if not create
      then (m, unavailable)
      else open_in c now checked seq ts (writable c checked.memory)

  unfoldable pub found_or_new :
      Config → ℕ → EventManager S.Memory → Bool → ℕ → ℕ → Option ℕ → EventManager S.Memory × Found
  found_or_new c now m create seq ts (some b) = (m, found b)
  found_or_new c now m create seq ts none = new_buffer c now m create seq ts

  -- `getBufferForSequenceID_`
  unfoldable pub get_buffer_for_sequence_id :
      Config → ℕ → EventManager S.Memory → Bool → ℕ → ℕ → EventManager S.Memory × Found
  get_buffer_for_sequence_id c now m create seq ts =
      found_or_new c now m create seq ts (find_buffer m.events seq (S.owned m.memory))

  -- `GetFragmentCount`, of all types.
  unfoldable pub get_fragment_count : EventManager S.Memory → ℕ → ℕ
  get_fragment_count m seq = elim (find_buffer m.events seq (S.owned m.memory)) [
    | none ↦ 0
    | some b ↦ length (m.events b).fragments
  ]

  -- `hdr->run_id` and `hdr->subrun_id` are brought up to date.
  unfoldable pub touch_header : Config → EventManager S.Memory → ℕ → ℕ → Event
  touch_header c m b seq =
      let e = m.events b in
      record e {
        event_run = if c.update_run_ids then m.run_id else e.event_run;
        event_subrun = get_subrun_for_sequence_id m.subrun_event_map seq;
      }

  -- `AddFragment` of a header with its data, in the buffer that was found.
  unfoldable pub add_in_buffer :
      Config → ℕ → EventManager S.Memory → ℕ → FragmentHeader → EventManager S.Memory × Added
  add_in_buffer c now m b f =
      let e = touch_header c m b f.sequence_id in
      let grown = S.increment_write_pos m.memory b (u64 (f.word_count * c.word_size)) in
      let written = e.fragments ++ f ∷ [] in
      let complete =
        length written == c.num_fragments_per_event && eqb_ℤ (m.buffer_writes_pending b) (pos 0) in
      let done =
        complete_buffer S c
          (record m {
            memory = grown.0;
            events = update m.events b (record e { is_complete = complete; fragments = written });
          })
          b in
      if grown.1
      then (record done { requests = poke_requests now done.requests }, is_added)
      else (record m { memory = grown.0; events = update m.events b e }, write_failed)

  unfoldable pub add_found :
      Config → ℕ → FragmentHeader → EventManager S.Memory × Found → EventManager S.Memory × Added
  add_found c now f (m, unavailable) = (m, not_added)
  add_found c now f (m, already_released) = (m, is_added)
  add_found c now f (m, found b) = add_in_buffer c now m b f

  unfoldable pub add_fragment :
      Config → ℕ → EventManager S.Memory → FragmentHeader → EventManager S.Memory × Added
  add_fragment c now m f =
      let got = get_buffer_for_sequence_id c now m true f.sequence_id f.timestamp in
      if not m.running then (m, is_added) else add_found c now f got
