-- ===== src/FragmentBuffer/Apply.antt =====
-- FragmentBuffer.cc: `applyRequests`. What other threads do while it waits comes as a list with the
-- state that they leave after each wait, which is at most 100 (1000 ms in steps of 10 ms).
use artdaq.Prelude.Ord.{nat_ord}
use artdaq.FragmentBuffer.{
  FragmentBuffer, Config, Output, single, buffer, window, ignored, sequence_id_mode, RequestMode,
}
use artdaq.FragmentBuffer.Fill.{check_stop, data_buffer_fragment_count}
use artdaq.FragmentBuffer.Check.{check_data_buffers}
use artdaq.FragmentBuffer.Modes.{
  wholes, apply_requests_ignored_mode, apply_requests_single_mode, apply_requests_buffer_mode,
}
use artdaq.FragmentBuffer.Window.{apply_requests_window_mode}
use artdaq.FragmentBuffer.Sequence.{apply_requests_sequence_id_mode}
use artdaq.Prelude.{
  ltb, ◌==◌, if◌then◌else◌, ℕ, Bool, true, false, not, Option, none, some, List, [], ◌∷◌,
}

-- How a wait ends: the call goes on with a state, or returns false, or runs into undefined behaviour.
pub data Outcome : Type 0 where
  go_on : FragmentBuffer → Outcome
  give_up : FragmentBuffer → Outcome
  undefined : Outcome

abbrev has_request : FragmentBuffer → Bool
has_request b = elim b.request_buffer.requests [ [] ↦ false | r ∷ rest ↦ true ]

-- The wait of Ignored mode; each element of the list is the state after ten milliseconds, and the
-- list ends with the second.
unfoldable pub wait_for_data : Config → FragmentBuffer → List FragmentBuffer → Outcome
wait_for_data c b [] = go_on b
wait_for_data c b (later ∷ rest) =
    let further = wait_for_data c later rest in
    if not (data_buffer_fragment_count b == 0)
    then go_on b
    else if check_stop c b
    then give_up b
    else further

-- `checkDataBuffers` as a step that may be undefined.
unfoldable pub check_all : Config → FragmentBuffer → Option FragmentBuffer
check_all c b = elim (check_data_buffers c b.data_buffers) [
  | none ↦ none
  | some buffers ↦ some (record b { data_buffers = buffers })
]

-- The wait for a request; `activity` is what other threads do to a state during one wait.
unfoldable pub wait_for_request :
    Config → FragmentBuffer → List (FragmentBuffer → FragmentBuffer) → Outcome
wait_for_request c b [] = go_on b
wait_for_request c b (activity ∷ rest) =
    if has_request b then go_on b else if check_stop c b then give_up b else elim (check_all c b) [
      | none ↦ undefined
      | some checked ↦ wait_for_request c (activity checked) rest
    ]

-- The system fragments are moved to the output.
unfoldable pub take_system : FragmentBuffer → FragmentBuffer × List Output
take_system b =
    if ltb 0 b.system_fragment_count
    then (record b { system_fragments = []; system_fragment_count = 0 }, wholes b.system_fragments)
    else (b, [])

-- The `switch` on the mode.
unfoldable pub apply_mode :
    ℕ → Config → ℕ → RequestMode → FragmentBuffer → List Output → FragmentBuffer × List Output
apply_mode invalid c now single b frags = apply_requests_single_mode c b frags
apply_mode invalid c now buffer b frags = apply_requests_buffer_mode c b frags
apply_mode invalid c now window b frags = apply_requests_window_mode invalid c now b frags
apply_mode invalid c now ignored b frags = apply_requests_ignored_mode b frags
apply_mode invalid c now sequence_id_mode b frags = apply_requests_sequence_id_mode c now b frags

-- What `applyRequests` does before its output: the waits of the mode.
unfoldable pub await :
    Config
    → FragmentBuffer
    → List FragmentBuffer
    → (FragmentBuffer → FragmentBuffer)
    → List (FragmentBuffer → FragmentBuffer)
    → Outcome
await c b arriving first activities = if check_stop c b then give_up b else elim c.mode [
  | ignored ↦ wait_for_data c b arriving
  | _ ↦ if not b.has_request_buffer then give_up b else elim (check_all c (first b)) [
    | none ↦ undefined
    | some checked ↦ wait_for_request c checked activities
  ]
]

-- The outcome of `applyRequests`: its answer, the state, and the output.
pub data Applied : Type 0 where
  answered : Bool → FragmentBuffer → List Output → Applied
  not_defined : Applied

unfoldable pub apply_requests :
    ℕ
    → Config
    → ℕ
    → FragmentBuffer
    → List FragmentBuffer
    → (FragmentBuffer → FragmentBuffer)
    → List (FragmentBuffer → FragmentBuffer)
    → Applied
apply_requests invalid c now b arriving first activities =
    elim (await c b arriving first activities) [
      | undefined ↦ not_defined
      | give_up ended ↦ answered false ended []
      | go_on begun ↦
          answered true
            (apply_mode invalid c now c.mode (take_system begun).0 (take_system begun).1).0
            (apply_mode invalid c now c.mode (take_system begun).0 (take_system begun).1).1
    ]
