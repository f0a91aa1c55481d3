-- ===== src/FragmentBuffer.antt =====
-- artdaq/DAQrate/FragmentBuffer.cc and .hh: the buffer between a fragment generator or receiver and
-- the requests. A method that reads the clock takes the reading as its argument `now`. `Fragment` is
-- a class of artdaq-core: the model has the fields that this code reads, and not the payload, which
-- it only moves. A method runs as one step, where the source locks each data buffer for itself.
pub mod Fill
pub mod Check
pub mod Modes
pub mod Window
pub mod Sequence
pub mod Apply
pub mod Depth
pub mod Answers
pub mod Due
mod Tests
use artdaq.RequestBuffer.{RequestBuffer, new as new_request_buffer}
use artdaq.Prelude.Int.{ℤ, pos, negsuc, eqb_ℤ}
use artdaq.Prelude.Ord.{nat_ord}
use artdaq.Prelude.Words.{to_int}
use artdaq.Map.{Assoc, insert}
use artdaq.Prelude.{if◌then◌else◌, length, ℕ, Bool, false, Option, none, some, List, [], ◌∷◌}

pub data RequestMode : Type 0 where
  single buffer window ignored sequence_id_mode : RequestMode

-- The types that the code tells apart, and any other type by its number.
pub data FragmentType : Type 0 where
  init_fragment end_of_run_fragment end_of_subrun_fragment : FragmentType
  other_fragment : ℕ → FragmentType

pub record Fragment : Type 0 where
  pub fragment_id : ℕ
  pub type : FragmentType
  pub sequence_id : ℕ
  pub timestamp : ℕ
  pub size_bytes : ℕ

-- What `frags` receives: a fragment as it was received or copied, an empty fragment with its
-- sequence ID and fragment ID, or a container with its sequence ID, fragment ID, timestamp,
-- `missing_data` flag and the fragments that its loader was given.
pub data Output : Type 0 where
  whole : Fragment → Output
  empty : ℕ → ℕ → Output
  container : ℕ → ℕ → ℕ → Bool → List Fragment → Output

pub record DataBuffer : Type 0 where
  pub depth_fragments : ℤ
  pub depth_bytes : ℕ
  pub windows_sent : Assoc ℕ ℕ
  pub buffer_fragment_kept : Bool
  pub highest_request_seen : ℕ
  pub fragments : List Fragment

pub record Config : Type 0 where
  pub mode : RequestMode
  pub buffer_mode_keep_latest : Bool
  pub window_offset : ℕ
  pub window_width : ℕ
  pub stale_timeout : ℕ
  pub unique_windows : Bool
  pub send_missing_fragments : Bool
  pub missing_request_window_timeout_us : ℕ
  pub window_close_timeout_us : ℕ
  pub circular_data_buffer_mode : Bool
  pub max_depth_fragments : ℤ
  pub max_depth_bytes : ℕ

-- `request_buffer` is the one that the pointer `requestBuffer_` leads to, where it is set.
-- `data_buffers` stands in the order of the iterator of the hash map.
pub record FragmentBuffer : Type 0 where
  pub next_sequence_id : ℕ
  pub has_request_buffer : Bool
  pub request_buffer : RequestBuffer
  pub data_buffers : Assoc ℕ DataBuffer
  pub system_fragments : List Fragment
  pub system_fragment_count : ℕ
  pub should_stop : Bool

-- `DataBuffer.size()` put into the `int` depth.
abbrev pub size_as_int : List Fragment → ℤ
size_as_int fragments = to_int (length fragments)

unfoldable pub new_data_buffer : DataBuffer
new_data_buffer = record {
  depth_fragments = pos 0;
  depth_bytes = 0;
  windows_sent = [];
  buffer_fragment_kept = false;
  highest_request_seen = 0;
  fragments = [];
}

-- `dataBuffers_[id] = std::make_shared<DataBuffer>()` for each of `fragment_ids`.
unfoldable pub declare_ids : List ℕ → Assoc ℕ DataBuffer → Assoc ℕ DataBuffer
declare_ids [] buffers = buffers
declare_ids (id ∷ ids) buffers = declare_ids ids (insert id new_data_buffer buffers)

-- The IDs that the constructor declares: `fragment_id` is -99 where it is not configured; `none` is
-- the exception for a configuration with both. `to_id` is the conversion to artdaq-core's type.
unfoldable pub configured_ids : (ℤ → ℕ) → ℤ → List ℕ → Option (List ℕ)
configured_ids to_id fragment_id fragment_ids =
    if eqb_ℤ fragment_id (negsuc 98)
    then some fragment_ids
    else elim fragment_ids [ [] ↦ some (to_id fragment_id ∷ []) | id ∷ ids ↦ none ]

-- The constructor's last test of the mode.
unfoldable pub effective_mode : RequestMode → Bool → RequestMode
effective_mode ignored receive_requests = ignored
effective_mode mode receive_requests = if receive_requests then mode else ignored

unfoldable pub construct : (ℤ → ℕ) → ℤ → List ℕ → Option FragmentBuffer
construct to_id fragment_id fragment_ids = elim (configured_ids to_id fragment_id fragment_ids) [
  | none ↦ none
  | some ids ↦ some (record {
    next_sequence_id = 1;
    has_request_buffer = false;
    request_buffer = new_request_buffer 1;
    data_buffers = declare_ids ids [];
    system_fragments = [];
    system_fragment_count = 0;
    should_stop = false;
  })
]
