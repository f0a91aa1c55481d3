-- ===== src/FragmentBuffer/Window.antt =====
-- FragmentBuffer.cc: the Window mode of `applyRequests`. The readings of the clock in one call are
-- one number, `now`.
pub mod Contents
use artdaq.Prelude.Ord.{nat_ord}
use artdaq.RequestBuffer.{RequestBuffer, remove_request, get_requests, get_request_time}
use artdaq.FragmentBuffer.{
  FragmentBuffer, Config, DataBuffer, Fragment, Output, size_as_int, container,
}
use artdaq.FragmentBuffer.Check.{check_sent_windows, last_of, elapsed}
use artdaq.Prelude.{
  ltb, leb, ◌==◌, if◌then◌else◌, ℕ, ◌+◌, ◌-◌, Bool, false, not, ◌&&◌, ◌||◌, List, [], ◌∷◌, ◌++◌,
}
use artdaq.Prelude.Int.{ltb_ℤ, pos}
use artdaq.Prelude.Words.{u64, sub64}
use artdaq.Map.{Assoc, contains, insert, KeySet}

unfoldable pub window_min : Config → ℕ → ℕ
window_min c ts = ts - c.window_offset

unfoldable pub window_max : Config → ℕ → ℕ
window_max c ts =
    if ltb c.window_offset (u64 (ts + c.window_width))
    then u64 (ts + c.window_width) - c.window_offset
    else 1

-- The data has gone past the end of the window.
unfoldable pub is_closed : ℕ → DataBuffer → Bool
is_closed maximum d = elim d.fragments [
  | [] ↦ false
  | f ∷ rest ↦ ltb_ℤ (pos 0) d.depth_fragments && leb maximum (last_of f rest).timestamp
]

unfoldable pub starts_before : ℕ → DataBuffer → Bool
starts_before minimum d = elim d.fragments [
  | [] ↦ false
  | f ∷ rest ↦ ltb_ℤ (pos 0) d.depth_fragments && ltb minimum f.timestamp
]

unfoldable pub any_before : ℕ → List Fragment → Bool
any_before minimum [] = false
any_before minimum (g ∷ more) = ltb g.timestamp minimum || any_before minimum more

-- After a timeout the search starts from the last fragment before the window, or from the front:
-- the fragments before that place, and those from it on.
unfoldable pub seek_back : ℕ → List Fragment → List Fragment × List Fragment
seek_back minimum [] = ([], [])
seek_back minimum (f ∷ rest) =
    let further = seek_back minimum rest in
    if any_before minimum rest then (f ∷ further.0, further.1) else ([], f ∷ rest)

-- The fragment is past the window and ends the loop.
unfoldable pub is_past : Config → ℕ → Fragment → Bool
is_past c maximum f = ltb maximum f.timestamp || (f.timestamp == maximum && ltb 0 c.window_width)

-- The loop over the fragments: what it leaves in the buffer, the depth in bytes, and `fragsToAdd`.
unfoldable pub collect : Config → ℕ → ℕ → List Fragment → ℕ → List Fragment × ℕ × List Fragment
collect c minimum maximum [] bytes = ([], bytes, [])
collect c minimum maximum (f ∷ rest) bytes =
    let skipped = collect c minimum maximum rest bytes in
    let taken = collect c minimum maximum rest (sub64 bytes f.size_bytes) in
    if ltb f.timestamp minimum
    then (f ∷ skipped.0, skipped.1, skipped.2)
    else if is_past c maximum f
    then (f ∷ rest, bytes, [])
    else if c.unique_windows
    then (taken.0, taken.1, f ∷ taken.2)
    else (f ∷ skipped.0, skipped.1, f ∷ skipped.2)

-- The data buffer after the window of request `seq` was filled from it, and the container.
unfoldable pub fill_window : Config → ℕ → ℕ → ℕ → ℕ → Bool → DataBuffer → DataBuffer × Output
fill_window c now id seq ts closed d =
    let minimum = window_min c ts in
    let parts = if closed then ([], d.fragments) else seek_back minimum d.fragments in
    let found = collect c minimum (window_max c ts) parts.1 d.depth_bytes in
    (
      record d {
        fragments = parts.0 ++ found.0;
        depth_bytes = found.1;
        depth_fragments = size_as_int (parts.0 ++ found.0);
        windows_sent = insert seq now d.windows_sent;
        highest_request_seen =
            if ltb d.highest_request_seen seq then seq else d.highest_request_seen;
      },
      container seq id ts (not closed || starts_before minimum d) found.2,
    )

-- `applyRequestsWindowMode_CheckAndFillDataBuffer`. After a timeout with an empty buffer the source
-- steps `it` back from `end()` of an empty list, which the model takes to stay at the end.
unfoldable pub check_and_fill_data_buffer :
    Config → RequestBuffer → ℕ → ℕ → ℕ → ℕ → DataBuffer → DataBuffer × List Output
check_and_fill_data_buffer c r now id seq ts d =
    let closed = is_closed (window_max c ts) d in
    let waited = elapsed now (get_request_time r seq now) in
    let filled = fill_window c now id seq ts closed d in
    if closed || ltb c.window_close_timeout_us waited then (filled.0, filled.1 ∷ []) else (d, [])

-- The loop over the data buffers for one request.
unfoldable pub fill_data_buffers :
    Config → RequestBuffer → ℕ → ℕ → ℕ → Assoc ℕ DataBuffer → Assoc ℕ DataBuffer × List Output
fill_data_buffers c r now seq ts [] = ([], [])
fill_data_buffers c r now seq ts ((id, d) ∷ rest) =
    let others = fill_data_buffers c r now seq ts rest in
    let filled = check_and_fill_data_buffer c r now id seq ts d in
    if contains seq d.windows_sent
    then ((id, d) ∷ others.0, others.1)
    else ((id, filled.0) ∷ others.0, filled.1 ++ others.1)

-- The sequence IDs of the windows sent, in increasing order.
unfoldable pub sent_sequences : Assoc ℕ DataBuffer → KeySet ℕ
sent_sequences [] = []
sent_sequences ((id, d) ∷ rest) = insert_keys d.windows_sent (sent_sequences rest)
  where
    insert_keys : Assoc ℕ ℕ → KeySet ℕ → KeySet ℕ
    insert_keys [] set = set
    insert_keys ((seq, time) ∷ more) set = insert seq tt (insert_keys more set)

unfoldable pub check_all_sent : Config → ℕ → KeySet ℕ → FragmentBuffer → FragmentBuffer
check_all_sent c now [] b = b
check_all_sent c now ((seq, u) ∷ rest) b =
    check_all_sent c now rest (check_sent_windows c now b seq)

-- `Fragment::InvalidTimestamp` is a constant of artdaq-core.
module _ (invalid_timestamp : ℕ) where
  -- The loop of `applyRequestsWindowMode` over the requests. Requests that are past are removed as
  -- they are met; the source looks at `requests.size()` and at `req` after the last of them was
  -- erased, and the model stops there.
  unfoldable pub window_requests :
      Config → ℕ → Assoc ℕ ℕ → FragmentBuffer → List Output → FragmentBuffer × List Output
  window_requests c now [] b frags = (b, frags)
  window_requests c now ((seq, ts) ∷ rest) b frags =
      let filled = fill_data_buffers c b.request_buffer now seq ts b.data_buffers in
      if ltb seq b.next_sequence_id
      then window_requests c now rest
          (record b { request_buffer = remove_request b.request_buffer seq }) frags
      else if ts == invalid_timestamp
      then window_requests c now rest b frags
      else window_requests c now rest
          (check_sent_windows c now (record b { data_buffers = filled.0 }) seq) (frags ++ filled.1)

  unfoldable pub apply_requests_window_mode :
      Config → ℕ → FragmentBuffer → List Output → FragmentBuffer × List Output
  apply_requests_window_mode c now b frags =
      let answered = window_requests c now (get_requests b.request_buffer) b frags in
      (check_all_sent c now (sent_sequences answered.0.data_buffers) answered.0, answered.1)
