-- ===== src/FragmentBuffer/Fill.antt =====
-- FragmentBuffer.cc: how fragments come in (`Reset`, `AddFragmentsToBuffer`, `waitForDataBufferReady`,
-- `dataBufferIsTooLarge`), and the small queries.
use Prim.Native.String.{String}
use artdaq.Prelude.Ord.{nat_ord}
use artdaq.RequestBuffer.{RequestBuffer}
use artdaq.FragmentBuffer.{
  FragmentBuffer, Config, DataBuffer, Fragment, RequestMode, FragmentType, size_as_int, single,
  buffer, window, ignored, sequence_id_mode, init_fragment, end_of_run_fragment,
  end_of_subrun_fragment, other_fragment,
}
use artdaq.Prelude.{
  ltb, if◌then◌else◌, length, ℕ, ◌+◌, Bool, true, false, not, ◌&&◌, ◌||◌, Option, none, some, List,
  [], ◌∷◌, ◌++◌, ◌==◌,
}
use artdaq.Prelude.Int.{ltb_ℤ, pos}
use artdaq.Prelude.Words.{u64, sub64, to_u64}
use artdaq.Map.{Assoc, lookup, contains, insert}

unfoldable pub clear_data_buffer : DataBuffer → DataBuffer
clear_data_buffer d = record d {
  depth_bytes = 0;
  depth_fragments = pos 0;
  buffer_fragment_kept = false;
  fragments = [];
}

abbrev pub map_buffers : (DataBuffer → DataBuffer) → Assoc ℕ DataBuffer → Assoc ℕ DataBuffer
map_buffers change [] = []
map_buffers change ((id, d) ∷ rest) = (id, change d) ∷ map_buffers change rest

-- `Reset` keeps `windows_sent`, `highest_request_seen` and the request buffer.
unfoldable pub reset : FragmentBuffer → Bool → FragmentBuffer
reset b stop = record b {
  should_stop = stop;
  next_sequence_id = 1;
  data_buffers = map_buffers clear_data_buffer b.data_buffers;
  system_fragments = [];
  system_fragment_count = 0;
}

unfoldable pub data_buffer_is_too_large : Config → DataBuffer → Bool
data_buffer_is_too_large c d =
    (ltb_ℤ (pos 0) c.max_depth_fragments && ltb_ℤ c.max_depth_fragments d.depth_fragments)
    || (ltb 0 c.max_depth_bytes && ltb c.max_depth_bytes d.depth_bytes)

-- The fragment at the front, of the fragments `f ∷ rest`, is dropped.
unfoldable pub drop_front : Fragment → List Fragment → DataBuffer → DataBuffer
drop_front f rest d = record d {
  depth_bytes = sub64 d.depth_bytes f.size_bytes;
  fragments = rest;
  depth_fragments = size_as_int rest;
  buffer_fragment_kept = false;
}

-- The loop that drops from the front while the buffer is too large, over the fragments of the
-- buffer; `none` where it is too large and has no fragment.
unfoldable pub shrink : Config → List Fragment → DataBuffer → Option DataBuffer
shrink c [] d = if data_buffer_is_too_large c d then none else some d
shrink c (f ∷ rest) d =
    let further = shrink c rest (drop_front f rest d) in
    if data_buffer_is_too_large c d then further else some d

-- `ready` and `stopped` are the two ways to return; in `blocked` the loop sleeps until another
-- thread shrinks the buffer or stops the run, or for ever where a circular buffer without fragments
-- is too large.
pub data Waited : Type 0 where
  ready : DataBuffer → Waited
  stopped : Waited
  blocked : Waited

unfoldable pub wait_for_data_buffer_ready : Config → Bool → DataBuffer → Waited
wait_for_data_buffer_ready c should_stop d =
    if c.circular_data_buffer_mode
    then elim (shrink c d.fragments d) [ none ↦ blocked | some e ↦ ready e ]
    else if not (data_buffer_is_too_large c d)
    then ready d
    else if should_stop
    then stopped
    else blocked

unfoldable pub is_system : FragmentType → Bool
is_system init_fragment = true
is_system end_of_run_fragment = true
is_system end_of_subrun_fragment = true
is_system (other_fragment n) = false

abbrev group_at : ℕ → Assoc ℕ (List Fragment) → List Fragment
group_at id groups = elim (lookup id groups) [ none ↦ [] | some group ↦ group ]

-- The first loop of `AddFragmentsToBuffer`: the system fragments, and the others by fragment ID;
-- `none` in place of the groups is the exception for an ID that is not declared.
unfoldable pub split_fragments :
    Assoc ℕ DataBuffer
    → List Fragment
    → List Fragment
    → Assoc ℕ (List Fragment)
    → List Fragment × Option (Assoc ℕ (List Fragment))
split_fragments buffers [] system groups = (system, some groups)
split_fragments buffers (f ∷ rest) system groups =
    if is_system f.type
    then split_fragments buffers rest (system ++ f ∷ []) groups
    else if not (contains f.fragment_id buffers)
    then (system, none)
    else split_fragments buffers rest system
        (insert f.fragment_id (group_at f.fragment_id groups ++ f ∷ []) groups)

-- The loop that appends a group, and the depth after it.
unfoldable pub append_all : DataBuffer → List Fragment → DataBuffer
append_all d [] = record d { depth_fragments = size_as_int d.fragments }
append_all d (f ∷ rest) =
    append_all
      (record d {
        depth_bytes = u64 (d.depth_bytes + f.size_bytes);
        fragments = d.fragments ++ f ∷ [];
      })
      rest

-- In Single mode only the last fragment of a group stays.
unfoldable pub keep_last : DataBuffer → Fragment → List Fragment → DataBuffer
keep_last d f [] = record d {
  depth_bytes = f.size_bytes;
  fragments = f ∷ [];
  depth_fragments = pos 1;
}
keep_last d f (g ∷ rest) = keep_last d g rest

-- The `switch` on the mode; a group is never empty.
unfoldable pub add_to_data_buffer : RequestMode → DataBuffer → List Fragment → DataBuffer
add_to_data_buffer mode d [] = d
add_to_data_buffer single d (f ∷ rest) = keep_last d f rest
add_to_data_buffer buffer d (f ∷ rest) = append_all d (f ∷ rest)
add_to_data_buffer window d (f ∷ rest) = append_all d (f ∷ rest)
add_to_data_buffer ignored d (f ∷ rest) = append_all d (f ∷ rest)
add_to_data_buffer sequence_id_mode d (f ∷ rest) = append_all d (f ∷ rest)

-- What a call of `AddFragmentsToBuffer` came to: it is done; it threw for an unknown fragment ID;
-- or it waits for a data buffer, with the groups that it still has to add.
pub data Added : Type 0 where
  added : FragmentBuffer → Added
  unknown_id : FragmentBuffer → Added
  waiting : FragmentBuffer → Assoc ℕ (List Fragment) → Added

-- The data buffer of `id` is changed where it stands.
unfoldable pub put_at : ℕ → DataBuffer → Assoc ℕ DataBuffer → Assoc ℕ DataBuffer
put_at id d [] = []
put_at id d ((i, e) ∷ rest) = if i == id then (i, d) ∷ rest else (i, e) ∷ put_at id d rest

abbrev pub put_buffer : FragmentBuffer → ℕ → DataBuffer → FragmentBuffer
put_buffer b id d = record b { data_buffers = put_at id d b.data_buffers }

-- The second loop, which goes through the groups of its hash map by ID; where the wait ends because the run stops, the group is added all the same.
unfoldable pub add_groups : Config → FragmentBuffer → Assoc ℕ (List Fragment) → Added
add_groups c b [] = added b
add_groups c b ((id, group) ∷ rest) = elim (lookup id b.data_buffers) [
  | none ↦ unknown_id b
  | some d ↦ elim (wait_for_data_buffer_ready c b.should_stop d) [
    | ready e ↦ add_groups c (put_buffer b id (add_to_data_buffer c.mode e group)) rest
    | stopped ↦ add_groups c (put_buffer b id (add_to_data_buffer c.mode d group)) rest
    | blocked ↦ waiting b ((id, group) ∷ rest)
  ]
]

unfoldable pub add_fragments_to_buffer : Config → FragmentBuffer → List Fragment → Added
add_fragments_to_buffer c b frags =
    let parts = split_fragments b.data_buffers frags [] [] in
    let after = record b {
      system_fragments = b.system_fragments ++ parts.0;
      system_fragment_count = u64 (b.system_fragment_count + length parts.0);
    } in
    elim parts.1 [ none ↦ unknown_id after | some groups ↦ add_groups c after groups ]

unfoldable pub check_stop : Config → FragmentBuffer → Bool
check_stop c b = if not b.should_stop then false else elim c.mode [
  | ignored ↦ true
  | _ ↦ b.has_request_buffer && not b.request_buffer.receiver_running
]

unfoldable pub print_mode : RequestMode → String
print_mode single = "Single"
print_mode buffer = "Buffer"
print_mode window = "Window"
print_mode ignored = "Ignored"
print_mode sequence_id_mode = "SequenceID"

unfoldable pub depth_sum : ℕ → Assoc ℕ DataBuffer → ℕ
depth_sum sum [] = sum
depth_sum sum ((id, d) ∷ rest) = depth_sum (u64 (sum + to_u64 d.depth_fragments)) rest

unfoldable pub data_buffer_fragment_count : FragmentBuffer → ℕ
data_buffer_fragment_count b = u64 (depth_sum 0 b.data_buffers + b.system_fragment_count)

unfoldable pub set_request_buffer : FragmentBuffer → RequestBuffer → FragmentBuffer
set_request_buffer b r = record b { has_request_buffer = true; request_buffer = r }

-- `fragment_id()`: the one declared ID; `none` is the exception where there are several.
unfoldable pub fragment_id_of : FragmentBuffer → Option ℕ
fragment_id_of b = elim b.data_buffers [
  | [] ↦ none
  | (id, d) ∷ [] ↦ some id
  | (id, d) ∷ next ∷ rest ↦ none
]
