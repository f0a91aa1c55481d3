-- ===== src/EventManager/Write.antt =====
-- SharedMemoryEventManager.cc: fragments that are written in place, `WriteFragmentHeader` and
-- `DoneWritingFragment`. `invalid_type` is `Fragment::InvalidFragmentType`, and `same` the equality
-- of headers, both of artdaq-core.
use artdaq.Prelude.Ord.{nat_ord}
use artdaq.EventManager.{EventManager, SharedMemory, Config, FragmentHeader}
use artdaq.EventManager.Buffers.{update, complete_buffer}
use artdaq.EventManager.Open.{
  found, unavailable, already_released, get_buffer_for_sequence_id, touch_header, poke_requests,
  Found,
}
use artdaq.Prelude.{
  ltb, ◌==◌, if◌then◌else◌, length, ℕ, ◌+◌, ◌*◌, Bool, true, false, not, ◌&&◌, Option, none, some,
  List, [], ◌∷◌, ◌++◌,
}
use artdaq.Prelude.Words.{sub64, u32, u64, to_int}
use artdaq.Prelude.Int.{◌+ℤ◌, ltb_ℤ, ℤ, pos, negsuc}

-- Where the caller writes the payload: nowhere for now, in the buffer, or in memory of its own that
-- is thrown away; or an exception, by `Write` where not even the header fits, or for too many over-size
-- fragments.
pub data Written : Type 0 where
  no_space : Written
  in_buffer : ℕ → Written
  dropped : Written
  header_failed : Written
  too_many_oversize : Written

-- The end of `DoneWritingFragment`: it returns; it detaches from the shared memory with an exception;
-- or `UpdateFragmentHeader` never returns.
pub data Finished : Type 0 where
  returned detached stuck : Finished

-- `UpdateFragmentHeader`: the loop looks at one place only, as it does not move on.
unfoldable pub update_fragment_header :
    FragmentHeader → List FragmentHeader → Option (List FragmentHeader)
update_fragment_header f [] = some []
update_fragment_header f (g ∷ rest) =
    if f.fragment_id == g.fragment_id then some (f ∷ rest) else none

-- The first entry of `dropped_data_` with an equal header goes.
unfoldable pub erase_dropped :
    (FragmentHeader → FragmentHeader → Bool)
    → FragmentHeader
    → List FragmentHeader
    → Option (List FragmentHeader)
erase_dropped same f [] = none
erase_dropped same f (g ∷ rest) = elim (erase_dropped same f rest) [
  | none ↦ if same f g then some rest else none
  | some kept ↦ if same f g then some rest else some (g ∷ kept)
]

-- The count of over-size fragments has reached the configured maximum, where there is one.
unfoldable pub is_over : ℤ → ℕ → Bool
is_over most count = ltb_ℤ (pos 0) most && not (ltb_ℤ (to_int count) most)

module _ (S : SharedMemory) (invalid_type : ℕ) (same : FragmentHeader → FragmentHeader → Bool) where
  -- One more thread writes in the buffer, behind the header.
  unfoldable pub begin_write :
      Config → EventManager S.Memory → ℕ → FragmentHeader → FragmentHeader → EventManager S.Memory
  begin_write c m b counted f =
      let e = m.events b in
      record m {
        buffer_writes_pending =
            update m.buffer_writes_pending b (m.buffer_writes_pending b +ℤ pos 1);
        events = update m.events b (record e { fragments = e.fragments ++ counted ∷ [] });
      }

  -- A fragment that does not fit: its header stays as an invalid fragment without payload.
  unfoldable pub write_oversize :
      Config → EventManager S.Memory → ℕ → FragmentHeader → EventManager S.Memory × Written
  write_oversize c m b f =
      let cut = record f { word_count = c.header_words; fragment_type = invalid_type } in
      let begun = begin_write c m b cut f in
      (
        record begun {
          dropped_data = m.dropped_data ++ f ∷ [];
          oversize_fragment_count = u32 (m.oversize_fragment_count + 1);
        },
        if is_over c.maximum_oversize_fragment_count (u32 (m.oversize_fragment_count + 1))
            then too_many_oversize
            else dropped,
      )

  unfoldable pub write_in_buffer :
      Config → EventManager S.Memory → ℕ → FragmentHeader → EventManager S.Memory × Written
  write_in_buffer c m b f =
      let header = S.increment_write_pos m.memory b (c.header_words * c.word_size) in
      let payload = sub64 f.word_count c.header_words in
      let grown = S.increment_write_pos header.0 b (u64 (payload * c.word_size)) in
      let failed = record m {
        memory = header.0;
        buffer_writes_pending =
            update m.buffer_writes_pending b (m.buffer_writes_pending b +ℤ pos 1);
      } in
      if not header.1
      then (failed, header_failed)
      else if payload == 0
      then (record (begin_write c m b f f) { memory = header.0 }, in_buffer b)
      else if grown.1
      then (record (begin_write c m b f f) { memory = grown.0 }, in_buffer b)
      else write_oversize c (record m { memory = grown.0 }) b f

  unfoldable pub drop_fragment :
      EventManager S.Memory → FragmentHeader → EventManager S.Memory × Written
  drop_fragment m f = (record m { dropped_data = m.dropped_data ++ f ∷ [] }, dropped)

  -- In the buffer that was found, or dropped.
  unfoldable pub write_found :
      Config
      → FragmentHeader
      → Bool
      → EventManager S.Memory × Found
      → EventManager S.Memory × Written
  write_found c f drop_if_none (m, found b) = write_in_buffer c m b f
  write_found c f drop_if_none (m, unavailable) =
      if drop_if_none then drop_fragment m f else (m, no_space)
  write_found c f drop_if_none (m, already_released) = drop_fragment m f

  unfoldable pub write_fragment_header :
      Config → ℕ → EventManager S.Memory → FragmentHeader → Bool → EventManager S.Memory × Written
  write_fragment_header c now m f drop_if_none =
      let got = get_buffer_for_sequence_id S c now m true f.sequence_id f.timestamp in
      if not m.running then (m, no_space) else write_found c f drop_if_none got

  -- The writing thread is done; where others still write in the buffer nothing else happens.
  unfoldable pub finish_write :
      Config → ℕ → EventManager S.Memory → ℕ → FragmentHeader → EventManager S.Memory
  finish_write c now m b f =
      let e = touch_header S c m b f.sequence_id in
      let touched = S.touch_buffer m.memory b in
      let fewer = update m.buffer_writes_pending b (m.buffer_writes_pending b +ℤ negsuc 0) in
      let complete = not (ltb (length e.fragments) c.num_fragments_per_event) in
      let done =
        complete_buffer S c
          (record m {
            memory = touched;
            events = update m.events b (record e { is_complete = complete });
          })
          b in
      if ltb_ℤ (pos 1) (m.buffer_writes_pending b)
      then record m {
        memory = touched;
        events = update m.events b e;
        buffer_writes_pending = fewer;
      }
      else record done {
        buffer_writes_pending =
            update done.buffer_writes_pending b (done.buffer_writes_pending b +ℤ negsuc 0);
        requests = poke_requests now done.requests;
      }

  -- A header that the writer marked as not valid is put in place first.
  unfoldable pub finish_updated :
      Config
      → ℕ
      → EventManager S.Memory
      → ℕ
      → FragmentHeader
      → Option (List FragmentHeader)
      → EventManager S.Memory × Finished
  finish_updated c now m b f none = (m, stuck)
  finish_updated c now m b f (some fragments) = (
    finish_write c now
        (record m { events = update m.events b (record (m.events b) { fragments = fragments }) }) b
        f,
    returned,
  )

  unfoldable pub finish_found :
      Config → ℕ → EventManager S.Memory → ℕ → FragmentHeader → EventManager S.Memory × Finished
  finish_found c now m b f =
      if f.is_header_valid
      then (finish_write c now m b f, returned)
      else finish_updated c now m b f (update_fragment_header f (m.events b).fragments)

  -- No buffer: a dropped fragment is forgotten.
  unfoldable pub forget :
      EventManager S.Memory
      → Finished
      → Option (List FragmentHeader)
      → EventManager S.Memory × Finished
  forget m otherwise none = (m, otherwise)
  forget m otherwise (some kept) = (record m { dropped_data = kept }, returned)

  unfoldable pub finish_dropped :
      EventManager S.Memory → FragmentHeader → Finished → EventManager S.Memory × Finished
  finish_dropped m f otherwise = forget m otherwise (erase_dropped same f m.dropped_data)

  unfoldable pub done_in :
      Config → ℕ → FragmentHeader → EventManager S.Memory × Found → EventManager S.Memory × Finished
  done_in c now f (m, found b) = finish_found c now m b f
  done_in c now f (m, unavailable) = finish_dropped m f detached
  done_in c now f (m, already_released) = finish_dropped m f returned

  unfoldable pub done_writing_fragment :
      Config → ℕ → EventManager S.Memory → FragmentHeader → EventManager S.Memory × Finished
  done_writing_fragment c now m f =
      done_in c now f (get_buffer_for_sequence_id S c now m false f.sequence_id f.timestamp)
