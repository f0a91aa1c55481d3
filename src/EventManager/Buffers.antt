-- ===== src/EventManager/Buffers.antt =====
-- SharedMemoryEventManager.cc: the buffer of an event, its completion, and the release of pending
-- events (`getBufferForSequenceID_`, `complete_buffer_`, `check_pending_buffers_`).
use artdaq.Prelude.Ord.{nat_ord}
use artdaq.Map.Trim.{keep_last}
use artdaq.RequestSender.{RequestSender, add_request, remove_active}
use artdaq.EventManager.{EventManager, SharedMemory, Event, Config, Tokens, FragmentHeader}
use artdaq.Prelude.{
  ltb, ◌==◌, if◌then◌else◌, length, ℕ, ◌+◌, ◌-◌, Bool, not, ◌&&◌, ◌||◌, Option, none, some, List,
  [], ◌∷◌,
}
use artdaq.Prelude.Words.{sub64, u32, to_int, to_u64}
use artdaq.Map.{Assoc, lookup, contains, insert, erase, keys}
use artdaq.Prelude.Int.{eqb_ℤ, pos}

abbrev pub update {ℓ} : {A : Type ℓ} → (ℕ → A) → ℕ → A → ℕ → A
update f k v n = if n == k then v else f n

-- `if (requests_) requests_->RemoveRequest(seq)`
unfoldable pub drop_request : Option RequestSender → ℕ → Option RequestSender
drop_request none seq = none
drop_request (some r) seq = some (remove_active r seq)

unfoldable pub ask_for : Config → ℕ → Option RequestSender → ℕ → ℕ → Option RequestSender
ask_for c now none seq ts = none
ask_for c now (some r) seq ts = some (add_request c.max_request_count now r seq ts)

-- The owned buffer whose event has the sequence ID.
unfoldable pub find_buffer : (ℕ → Event) → ℕ → List ℕ → Option ℕ
find_buffer events seq [] = none
find_buffer events seq (b ∷ rest) =
    if (events b).event_sequence == seq then some b else find_buffer events seq rest

-- `std::list::sort` by the sequence ID of the buffers' events, which is stable.
unfoldable pub insert_by : (ℕ → Event) → ℕ → List ℕ → List ℕ
insert_by events b [] = b ∷ []
insert_by events b (c ∷ rest) =
    if ltb (events c).event_sequence (events b).event_sequence
    then c ∷ insert_by events b rest
    else b ∷ c ∷ rest

unfoldable pub sort_by : (ℕ → Event) → List ℕ → List ℕ
sort_by events [] = []
sort_by events (b ∷ rest) = insert_by events b (sort_by events rest)

-- `GetFragmentCountInBuffer`; `any` is `Fragment::InvalidFragmentType`, the default.
unfoldable pub count_type : ℕ → ℕ → List FragmentHeader → ℕ
count_type any type [] = 0
count_type any type (f ∷ rest) =
    if type == any || f.fragment_type == type
    then 1 + count_type any type rest
    else count_type any type rest

-- The fragments that a timed-out event lacks; a second release of the event takes its fragments off.
unfoldable pub note_incomplete : ℕ → Event → Assoc ℕ ℕ → Assoc ℕ ℕ
note_incomplete per_event e released = elim (lookup e.event_sequence released) [
  | none ↦ insert e.event_sequence (sub64 per_event (length e.fragments)) released
  | some missing ↦ insert e.event_sequence (sub64 missing (length e.fragments)) released
]

-- The tokens that are sent for free buffers: by the count of sent tokens, which the sending
-- threads raise when they are done.
unfoldable pub top_up : ℕ → ℕ → Tokens → Tokens
top_up available released t =
    let outstanding = sub64 t.tokens_sent released in
    if ltb outstanding available
    then record t { in_flight = t.in_flight + (available - outstanding) }
    else t

module _ (S : SharedMemory) where
  -- A buffer of the first loop of `check_pending_buffers_`: it has timed out, and its event goes to
  -- the pending ones as it is.
  unfoldable pub time_out : Config → EventManager S.Memory → ℕ → EventManager S.Memory
  time_out c m b = record m {
    requests = drop_request m.requests (m.events b).event_sequence;
    active_buffers = erase b m.active_buffers;
    pending_buffers = insert b tt m.pending_buffers;
    run_incomplete_event_count = u32 (m.run_incomplete_event_count + 1);
    released_incomplete_events =
        note_incomplete c.num_fragments_per_event (m.events b) m.released_incomplete_events;
  }

  -- Whether it is taken, after the reset.
  unfoldable pub is_timed_out : EventManager S.Memory → ℕ → Bool → Bool
  is_timed_out m b stale =
      stale
      && not (contains b m.pending_buffers)
      && contains b m.active_buffers
      && eqb_ℤ (m.buffer_writes_pending b) (pos 0)

  unfoldable pub time_out_all : Config → List ℕ → EventManager S.Memory → EventManager S.Memory
  time_out_all c [] m = m
  time_out_all c (b ∷ rest) m =
      let reset = S.reset_buffer m.memory b in
      let after = record m { memory = reset.0 } in
      time_out_all c rest (if is_timed_out after b reset.1 then time_out c after b else after)

  -- The release of one pending buffer.
  unfoldable pub release : EventManager S.Memory → ℕ → EventManager S.Memory
  release m b = record m {
    memory = S.mark_buffer_full m.memory b;
    run_event_count = u32 (m.run_event_count + 1);
    pending_buffers = erase b m.pending_buffers;
  }

  unfoldable pub release_all : List ℕ → EventManager S.Memory → EventManager S.Memory
  release_all [] m = m
  release_all (b ∷ rest) m = release_all rest (release m b)

  -- The order in which pending events are released.
  unfoldable pub release_order : EventManager S.Memory → List ℕ
  release_order m = sort_by m.events (keys m.pending_buffers)

  unfoldable pub send_tokens : Config → EventManager S.Memory → EventManager S.Memory
  send_tokens c m = record m {
    tokens = elim m.tokens [
      | none ↦ none
      | some t ↦ some (
          top_up (S.write_ready_count m.memory c.overwrite_mode) (to_u64 (to_int m.run_event_count))
            t)
    ];
  }

  -- `check_pending_buffers_`, without its statistics.
  unfoldable pub check_pending_buffers : Config → EventManager S.Memory → EventManager S.Memory
  check_pending_buffers c m =
      let timed = time_out_all c (S.owned m.memory) m in
      send_tokens c (release_all (release_order timed) timed)

  -- A sending thread of `TokenSender` is done with its tokens.
  unfoldable pub token_done : ℕ → EventManager S.Memory → EventManager S.Memory
  token_done n m = record m {
    tokens = elim m.tokens [
      | none ↦ none
      | some t ↦ some (record { tokens_sent = t.tokens_sent + n; in_flight = t.in_flight - n })
    ];
  }

  -- The part of `complete_buffer_` for a complete event.
  unfoldable pub retire : Config → EventManager S.Memory → ℕ → EventManager S.Memory
  retire c m b = record m {
    active_buffers = erase b m.active_buffers;
    pending_buffers = insert b tt m.pending_buffers;
    released_events =
        keep_last c.max_event_list_length (insert (m.events b).event_sequence tt m.released_events);
    requests = drop_request m.requests (m.events b).event_sequence;
  }

  unfoldable pub complete_buffer : Config → EventManager S.Memory → ℕ → EventManager S.Memory
  complete_buffer c m b =
      check_pending_buffers c (if (m.events b).is_complete then retire c m b else m)
