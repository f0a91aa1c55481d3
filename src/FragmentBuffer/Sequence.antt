-- ===== src/FragmentBuffer/Sequence.antt =====
-- FragmentBuffer.cc: the SequenceID mode of `applyRequests`.
pub mod Contents
use artdaq.Prelude.Ord.{nat_ord}
use artdaq.RequestBuffer.{get_requests}
use artdaq.FragmentBuffer.{FragmentBuffer, Config, DataBuffer, Fragment, Output, size_as_int}
use artdaq.FragmentBuffer.Check.{check_sent_windows}
use artdaq.FragmentBuffer.Modes.{wholes}
use artdaq.FragmentBuffer.Window.{sent_sequences, check_all_sent}
use artdaq.Prelude.{ltb, ◌==◌, if◌then◌else◌, ℕ, List, [], ◌∷◌, ◌++◌}
use artdaq.Prelude.Words.{sub64}
use artdaq.Map.{Assoc, contains, insert}

-- The loop over the fragments of a data buffer: those that stay, the depth in bytes, and those with
-- the sequence ID of the request.
unfoldable pub extract : ℕ → List Fragment → ℕ → List Fragment × ℕ × List Fragment
extract seq [] bytes = ([], bytes, [])
extract seq (f ∷ rest) bytes =
    let taken = extract seq rest (sub64 bytes f.size_bytes) in
    let skipped = extract seq rest bytes in
    if f.sequence_id == seq
    then (taken.0, taken.1, f ∷ taken.2)
    else (f ∷ skipped.0, skipped.1, skipped.2)

-- The data buffer after a search: it is changed where a fragment was found.
unfoldable pub note_found : ℕ → ℕ → List Fragment × ℕ → List Fragment → DataBuffer → DataBuffer
note_found now seq left [] d = d
note_found now seq left (f ∷ more) d = record d {
  fragments = left.0;
  depth_bytes = left.1;
  depth_fragments = size_as_int left.0;
  windows_sent = insert seq now d.windows_sent;
}

unfoldable pub search_data_buffer : ℕ → ℕ → DataBuffer → DataBuffer × List Fragment
search_data_buffer now seq d =
    let found = extract seq d.fragments d.depth_bytes in
    (note_found now seq (found.0, found.1) found.2 d, found.2)

unfoldable pub raise_highest : ℕ → DataBuffer → DataBuffer
raise_highest seq d = record d {
  highest_request_seen = if ltb d.highest_request_seen seq then seq else d.highest_request_seen;
}

-- The loop over the data buffers for one request.
unfoldable pub search_data_buffers : ℕ → ℕ → Assoc ℕ DataBuffer → Assoc ℕ DataBuffer × List Fragment
search_data_buffers now seq [] = ([], [])
search_data_buffers now seq ((id, d) ∷ rest) =
    let others = search_data_buffers now seq rest in
    let found = search_data_buffer now seq d in
    if contains seq d.windows_sent
    then ((id, raise_highest seq d) ∷ others.0, others.1)
    else ((id, raise_highest seq found.0) ∷ others.0, found.1 ++ others.1)

-- The loop over the requests.
unfoldable pub sequence_requests :
    Config → ℕ → Assoc ℕ ℕ → FragmentBuffer → List Output → FragmentBuffer × List Output
sequence_requests c now [] b frags = (b, frags)
sequence_requests c now ((seq, ts) ∷ rest) b frags =
    let found = search_data_buffers now seq b.data_buffers in
    sequence_requests c now rest
      (check_sent_windows c now (record b { data_buffers = found.0 }) seq) (frags ++ wholes found.1)

unfoldable pub apply_requests_sequence_id_mode :
    Config → ℕ → FragmentBuffer → List Output → FragmentBuffer × List Output
apply_requests_sequence_id_mode c now b frags =
    let answered = sequence_requests c now (get_requests b.request_buffer) b frags in
    (check_all_sent c now (sent_sequences answered.0.data_buffers) answered.0, answered.1)
