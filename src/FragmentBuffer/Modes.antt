-- ===== src/FragmentBuffer/Modes.antt =====
-- FragmentBuffer.cc: the Ignored, Single and Buffer modes of `applyRequests`.
use artdaq.Prelude.Ord.{nat_ord}
use artdaq.RequestBuffer.{RequestBuffer, remove_request, get_requests}
use artdaq.FragmentBuffer.{
  FragmentBuffer, Config, DataBuffer, Fragment, Output, size_as_int, whole, container,
}
use artdaq.FragmentBuffer.Fill.{clear_data_buffer}
use artdaq.FragmentBuffer.Check.{send_empty_fragments, send_empty_fragment, last_of}
use artdaq.Prelude.{
  leb, if◌then◌else◌, ℕ, ◌+◌, true, false, ◌&&◌, Option, none, some, List, [], ◌∷◌, ◌++◌, map,
}
use artdaq.Prelude.Int.{ltb_ℤ, pos}
use artdaq.Prelude.Words.{u64, sub64}
use artdaq.Map.{Assoc, lookup}

-- `std::move` of the fragments to the end of `frags`
abbrev pub wholes : List Fragment → List Output
wholes = map whole

-- `next_sequence_id_` goes past the last fragment of a data buffer.
unfoldable pub raise_next : ℕ → List Fragment → ℕ
raise_next next [] = next
raise_next next (f ∷ rest) =
    if leb next (last_of f rest).sequence_id then u64 ((last_of f rest).sequence_id + 1) else next

-- The loop of `applyRequestsIgnoredMode`.
unfoldable pub take_all :
    ℕ → Assoc ℕ DataBuffer → List Output → ℕ × Assoc ℕ DataBuffer × List Output
take_all next [] frags = (next, [], frags)
take_all next ((id, d) ∷ rest) frags =
    let others = take_all (raise_next next d.fragments) rest (frags ++ wholes d.fragments) in
    (others.0, (id, clear_data_buffer d) ∷ others.1, others.2)

unfoldable pub apply_requests_ignored_mode :
    FragmentBuffer → List Output → FragmentBuffer × List Output
apply_requests_ignored_mode b frags =
    let taken = take_all b.next_sequence_id b.data_buffers frags in
    (record b { next_sequence_id = taken.0; data_buffers = taken.1 }, taken.2)

-- All requests but the last are removed, from the request buffer and from the copy.
unfoldable pub keep_last_request : Assoc ℕ ℕ → RequestBuffer → RequestBuffer × Assoc ℕ ℕ
keep_last_request [] r = (r, [])
keep_last_request ((seq, ts) ∷ []) r = (r, (seq, ts) ∷ [])
keep_last_request ((seq, ts) ∷ (next, nts) ∷ rest) r =
    keep_last_request ((next, nts) ∷ rest) (remove_request r seq)

-- A copy of a fragment under the sequence ID and the timestamp of the request.
unfoldable pub copy_fragment : ℕ → ℕ → Fragment → Output
copy_fragment seq ts f = whole (record f { sequence_id = seq; timestamp = ts })

-- The loop of `applyRequestsSingleMode` over the data buffers, for the request `seq` with `ts`.
unfoldable pub copy_latest : ℕ → ℕ → Assoc ℕ DataBuffer → List Output → List Output
copy_latest seq ts [] frags = frags
copy_latest seq ts ((id, d) ∷ rest) frags = copy_latest seq ts rest (
    if ltb_ℤ (pos 0) d.depth_fragments
    then frags ++ map (copy_fragment seq ts) d.fragments
    else send_empty_fragment frags seq id)

-- What Single and Buffer mode do first: the last request stays, and the missed ones are answered.
unfoldable pub take_request :
    Config → FragmentBuffer → List Output → FragmentBuffer × List Output × Option ℕ
take_request c b frags =
    let kept = keep_last_request (get_requests b.request_buffer) b.request_buffer in
    let sent = send_empty_fragments c (record b { request_buffer = kept.0 }) kept.1 frags in
    (sent.0, sent.1, lookup sent.0.next_sequence_id kept.1)

-- What they do last: the request is removed and the next one is due.
unfoldable pub finish_request : FragmentBuffer → FragmentBuffer
finish_request b = record b {
  request_buffer = remove_request b.request_buffer b.next_sequence_id;
  next_sequence_id = u64 (b.next_sequence_id + 1);
}

-- With the timestamp of the request that is due, where there is one.
unfoldable pub answer_single :
    FragmentBuffer → List Output → Option ℕ → FragmentBuffer × List Output
answer_single b frags none = (b, frags)
answer_single b frags (some ts) =
    (finish_request b, copy_latest b.next_sequence_id ts b.data_buffers frags)

unfoldable pub apply_requests_single_mode :
    Config → FragmentBuffer → List Output → FragmentBuffer × List Output
apply_requests_single_mode c b frags =
    let taken = take_request c b frags in answer_single taken.0 taken.1 taken.2

-- A fragment kept from the last time is discarded where more data has come.
-- Its fragments are given.
unfoldable pub discard_kept : List Fragment → DataBuffer → DataBuffer
discard_kept [] d = d
discard_kept (f ∷ rest) d =
    if d.buffer_fragment_kept && ltb_ℤ (pos 1) d.depth_fragments
    then record d {
      depth_bytes = sub64 d.depth_bytes f.size_bytes;
      fragments = rest;
      depth_fragments = size_as_int rest;
    }
    else d

-- What stays in the data buffer once the container has a copy of its fragments, the last of which
-- is `latest`.
unfoldable pub after_copy : Config → Fragment → DataBuffer → DataBuffer
after_copy c latest d =
    if c.buffer_mode_keep_latest
    then record d {
      fragments = latest ∷ [];
      buffer_fragment_kept = true;
      depth_bytes = latest.size_bytes;
      depth_fragments = pos 1;
    }
    else clear_data_buffer d

-- One data buffer in Buffer mode: what stays, and the contents of its container. The source moves
-- the range up to `--end()`, which an empty list does not have; the model leaves such a data buffer
-- as it is, with an empty container.
unfoldable pub copy_fragments : Config → List Fragment → DataBuffer → DataBuffer × List Fragment
copy_fragments c [] d = (d, [])
copy_fragments c (f ∷ rest) d = (after_copy c (last_of f rest) d, f ∷ rest)

unfoldable pub copy_buffer : Config → DataBuffer → DataBuffer × List Fragment
copy_buffer c d =
    let current = discard_kept d.fragments d in copy_fragments c current.fragments current

-- The loop of `applyRequestsBufferMode`.
unfoldable pub copy_buffers :
    Config → ℕ → ℕ → Assoc ℕ DataBuffer → List Output → Assoc ℕ DataBuffer × List Output
copy_buffers c seq ts [] frags = ([], frags)
copy_buffers c seq ts ((id, d) ∷ rest) frags =
    let copied = copy_buffer c d in
    let others = copy_buffers c seq ts rest (frags ++ container seq id ts false copied.1 ∷ []) in
    ((id, copied.0) ∷ others.0, others.1)

unfoldable pub answer_buffer :
    Config → FragmentBuffer → List Output → Option ℕ → FragmentBuffer × List Output
answer_buffer c b frags none = (b, frags)
answer_buffer c b frags (some ts) =
    let copied = copy_buffers c b.next_sequence_id ts b.data_buffers frags in
    (finish_request (record b { data_buffers = copied.0 }), copied.1)

unfoldable pub apply_requests_buffer_mode :
    Config → FragmentBuffer → List Output → FragmentBuffer × List Output
apply_requests_buffer_mode c b frags =
    let taken = take_request c b frags in answer_buffer c taken.0 taken.1 taken.2
