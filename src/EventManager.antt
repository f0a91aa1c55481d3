-- ===== src/EventManager.antt =====
-- artdaq/DAQrate/SharedMemoryEventManager.cc and .hh: events are put together from fragments in
-- buffers of shared memory and released to art. `SharedMemoryManager` is a class of artdaq-core: its
-- methods are the parameter `SharedMemory`. `is_complete` and the rest of the event header, and the
-- fragments behind it, are in the memory of a buffer; the model has them under the buffer's number.
pub mod Subruns
pub mod Buffers
pub mod Open
pub mod Write
pub mod Run
pub mod Owned
pub mod Opened
pub mod Written
pub mod Steps
pub mod Release
pub mod Refill
pub mod EndOfData
mod Tests
use artdaq.Prelude.{ℕ, ◌≡◌, Bool, false, not, ◌&&◌, ◌||◌, Option, none, some, List, [], ◌∷◌, ◌==◌}
use artdaq.Prelude.Int.{ℤ}
use artdaq.Map.{Assoc, KeySet}
use artdaq.RequestSender.{RequestSender}

pub mem : ℕ → List ℕ → Bool
mem x [] = false
mem x (y ∷ ys) = x == y || mem x ys

-- What this class uses of `SharedMemoryManager`, in the order of their use: the buffers that the
-- manager owns; a free buffer to write in, with permission to overwrite or not; the reset of a
-- buffer that has timed out, with the answer whether it had; the release of a buffer to the readers;
-- its return to the free ones; how many can be written; a write; and the renewal of a buffer's
-- time. The laws say which buffers are owned afterwards.
pub record SharedMemory : Type 1 where
  pub Memory : Type 0
  pub buffer_count : ℕ
  pub owned : Memory → List ℕ
  pub get_buffer_for_writing : Memory → Bool → Memory × Option ℕ
  pub reset_buffer : Memory → ℕ → Memory × Bool
  pub mark_buffer_full : Memory → ℕ → Memory
  pub mark_buffer_empty : Memory → ℕ → Memory
  pub write_ready_count : Memory → Bool → ℕ
  pub increment_write_pos : Memory → ℕ → ℕ → Memory × Bool
  pub touch_buffer : Memory → ℕ → Memory
  pub writing-none :
      (s s' : Memory) (overwrite : Bool) (x : ℕ)
      → get_buffer_for_writing s overwrite ≡ (s', none)
      → mem x (owned s') ≡ mem x (owned s)
  pub writing-fresh :
      (s s' : Memory) (overwrite : Bool) (buffer : ℕ)
      → get_buffer_for_writing s overwrite ≡ (s', some buffer)
      → mem buffer (owned s) ≡ false
  pub writing-owned :
      (s s' : Memory) (overwrite : Bool) (buffer x : ℕ)
      → get_buffer_for_writing s overwrite ≡ (s', some buffer)
      → mem x (owned s') ≡ (x == buffer || mem x (owned s))
  pub reset-owned :
      (s : Memory) (buffer x : ℕ) → mem x (owned (reset_buffer s buffer).0) ≡ mem x (owned s)
  pub full-owned :
      (s : Memory) (buffer x : ℕ)
      → mem x (owned (mark_buffer_full s buffer)) ≡ (not (x == buffer) && mem x (owned s))
  pub touch-owned :
      (s : Memory) (buffer x : ℕ) → mem x (owned (touch_buffer s buffer)) ≡ mem x (owned s)
  pub increment-owned :
      (s : Memory) (buffer size x : ℕ)
      → mem x (owned (increment_write_pos s buffer size).0) ≡ mem x (owned s)

-- `detail::RawFragmentHeader`, as far as it is read here; the type is a number of artdaq-core.
pub record FragmentHeader : Type 0 where
  pub word_count : ℕ
  pub fragment_type : ℕ
  pub fragment_id : ℕ
  pub sequence_id : ℕ
  pub timestamp : ℕ
  pub is_header_valid : Bool

-- `detail::RawEventHeader`, and the headers of the fragments that follow it in the buffer.
pub record Event : Type 0 where
  pub is_complete : Bool
  pub event_run : ℕ
  pub event_subrun : ℕ
  pub event_id : ℕ
  pub event_sequence : ℕ
  pub event_timestamp : ℕ
  pub fragments : List FragmentHeader

pub record Config : Type 0 where
  pub num_fragments_per_event : ℕ
  pub queue_size : ℕ
  pub max_subrun_event_map_length : ℕ
  pub max_event_list_length : ℕ
  pub update_run_ids : Bool
  pub use_sequence_id_for_event_number : Bool
  pub overwrite_mode : Bool
  pub init_fragment_count : ℕ
  pub maximum_oversize_fragment_count : ℤ
  pub max_request_count : ℕ
  -- `detail::RawFragmentHeader::num_words()`
  pub header_words : ℕ
  -- `sizeof(detail::RawEventHeader)` and `sizeof(RawDataType)`
  pub event_header_size : ℕ
  pub word_size : ℕ

-- The tokens of `TokenSender` that are counted as sent, and those that a sending thread still has.
pub record Tokens : Type 0 where
  pub tokens_sent : ℕ
  pub in_flight : ℕ

-- The counts of events and of over-size fragments are `int`: they are the 32 bits of it, which wrap.
-- `requests` and `tokens` are `none` outside a run. `dropped_data` has the headers that the list of
-- that name goes by.
pub record EventManager (Memory : Type 0) : Type 0 where
  pub memory : Memory
  pub events : ℕ → Event
  pub active_buffers : KeySet ℕ
  pub pending_buffers : KeySet ℕ
  pub buffer_writes_pending : ℕ → ℤ
  pub released_events : KeySet ℕ
  pub released_incomplete_events : Assoc ℕ ℕ
  pub subrun_event_map : Assoc ℕ ℕ
  pub run_id : ℕ
  pub running : Bool
  pub run_event_count : ℕ
  pub run_incomplete_event_count : ℕ
  pub oversize_fragment_count : ℕ
  pub requests : Option RequestSender
  pub tokens : Option Tokens
  pub dropped_data : List FragmentHeader
  pub init_fragments : List FragmentHeader
  pub received_init_frags : KeySet ℕ
