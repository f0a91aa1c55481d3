-- ===== src/FragmentBuffer/Check.antt =====
-- FragmentBuffer.cc: `checkDataBuffer`, which drops what is over-size or stale, the empty fragments
-- for missed requests, and `checkSentWindows`.
use artdaq.Prelude.Ord.{nat_ord}
use artdaq.RequestBuffer.{remove_request}
use artdaq.FragmentBuffer.{
  FragmentBuffer, Config, DataBuffer, Fragment, RequestMode, Output, single, buffer, window,
  ignored, sequence_id_mode, empty,
}
use artdaq.FragmentBuffer.Fill.{shrink, drop_front, map_buffers}
use artdaq.Prelude.{
  ltb, ◌==◌, if◌then◌else◌, ℕ, zero, suc, ◌+◌, ◌-◌, Bool, true, false, not, ◌&&◌, ◌||◌, Option,
  none, some, List, [], ◌∷◌, ◌++◌,
}
use artdaq.Prelude.Int.{ltb_ℤ, pos}
use artdaq.Prelude.Words.{u64}
use artdaq.Map.{Assoc, lookup, contains, erase}

abbrev pub last_of {ℓ} : {A : Type ℓ} → A → List A → A
last_of x [] = x
last_of x (y ∷ rest) = last_of y rest

-- The loop that drops the fragments before `minimum`, up to the first one that is not.
unfoldable pub drop_stale : ℕ → List Fragment → DataBuffer → DataBuffer
drop_stale minimum [] d = d
drop_stale minimum (f ∷ rest) d =
    let further = drop_stale minimum rest (drop_front f rest d) in
    if ltb f.timestamp minimum then further else d

-- The fragments of the data buffer are given.
unfoldable pub stale_before : Config → List Fragment → DataBuffer → DataBuffer
stale_before c [] d = d
stale_before c (f ∷ rest) d =
    if ltb_ℤ (pos 0) d.depth_fragments && ltb 0 c.stale_timeout
    then drop_stale ((last_of f rest).timestamp - c.stale_timeout) (f ∷ rest) d
    else d

-- Whether the data buffers of a mode are checked at all.
unfoldable pub is_checked : RequestMode → Bool
is_checked single = false
is_checked ignored = false
is_checked buffer = true
is_checked window = true
is_checked sequence_id_mode = true

-- `none` where the source would erase from an empty list.
unfoldable pub check_data_buffer : Config → DataBuffer → Option DataBuffer
check_data_buffer c d =
    if ltb_ℤ (pos 0) d.depth_fragments && is_checked c.mode
    then elim (shrink c d.fragments d) [
      | none ↦ none
      | some e ↦ some (stale_before c e.fragments e)
    ]
    else some d

-- `checkDataBuffers`
unfoldable pub check_data_buffers : Config → Assoc ℕ DataBuffer → Option (Assoc ℕ DataBuffer)
check_data_buffers c [] = some []
check_data_buffers c ((id, d) ∷ rest) =
    let others = check_data_buffers c rest in
    elim (check_data_buffer c d) [
      | none ↦ none
      | some e ↦ elim others [ none ↦ none | some es ↦ some ((id, e) ∷ es) ]
    ]

-- `sendEmptyFragment`
unfoldable pub send_empty_fragment : List Output → ℕ → ℕ → List Output
send_empty_fragment frags seq id = frags ++ empty seq id ∷ []

-- The inner loop of `sendEmptyFragments`, over the data buffers.
unfoldable pub send_empty_to_all : List Output → ℕ → Assoc ℕ DataBuffer → List Output
send_empty_to_all frags seq [] = frags
send_empty_to_all frags seq ((id, d) ∷ rest) =
    send_empty_to_all (send_empty_fragment frags seq id) seq rest

-- The outer loop, run `missed` times; `next` counts up on `uint64_t`.
unfoldable pub send_missed : Config → Assoc ℕ DataBuffer → ℕ → ℕ → List Output → ℕ × List Output
send_missed c buffers zero next frags = (next, frags)
send_missed c buffers (suc missed) next frags =
    send_missed c buffers missed (u64 (next + 1))
      (if c.send_missing_fragments then send_empty_to_all frags next buffers else frags)

-- `sendEmptyFragments`: the loop runs while the first request is above `next_sequence_id_`.
unfoldable pub send_empty_fragments :
    Config → FragmentBuffer → Assoc ℕ ℕ → List Output → FragmentBuffer × List Output
send_empty_fragments c b [] frags = (b, frags)
send_empty_fragments c b ((seq, ts) ∷ rest) frags =
    let sent = send_missed c b.data_buffers (seq - b.next_sequence_id) b.next_sequence_id frags in
    (record b { next_sequence_id = sent.0 }, sent.1)

-- The time since `t`, in the microseconds of the clock.
abbrev pub elapsed : ℕ → ℕ → ℕ
elapsed now t = now - t

unfoldable pub is_complete : ℕ → Assoc ℕ DataBuffer → Bool
is_complete seq [] = true
is_complete seq ((id, d) ∷ rest) =
    contains seq d.windows_sent && not (ltb d.highest_request_seen seq) && is_complete seq rest

unfoldable pub has_timed_out : Config → ℕ → ℕ → Assoc ℕ DataBuffer → Bool
has_timed_out c now seq [] = false
has_timed_out c now seq ((id, d) ∷ rest) =
    elim (lookup seq d.windows_sent) [
      | none ↦ false
      | some t ↦ ltb c.missing_request_window_timeout_us (elapsed now t)
    ]
    || has_timed_out c now seq rest

unfoldable pub forget_window : ℕ → DataBuffer → DataBuffer
forget_window seq d = record d { windows_sent = erase seq d.windows_sent }

-- The request is removed, its windows are forgotten in every data buffer, and the next one is due.
unfoldable pub pass_sequence : FragmentBuffer → FragmentBuffer
pass_sequence b = record b {
  request_buffer = remove_request b.request_buffer b.next_sequence_id;
  data_buffers = map_buffers (forget_window b.next_sequence_id) b.data_buffers;
  next_sequence_id = u64 (b.next_sequence_id + 1);
}

unfoldable pub complete_sequence : FragmentBuffer → ℕ → FragmentBuffer
complete_sequence b seq =
    if b.next_sequence_id == seq
    then pass_sequence b
    else record b { request_buffer = remove_request b.request_buffer seq }

-- The loop while `next_sequence_id_ <= seq`, which runs `count` times.
unfoldable pub pass_many : ℕ → FragmentBuffer → FragmentBuffer
pass_many zero b = b
pass_many (suc count) b = pass_many count (pass_sequence b)

unfoldable pub complete_if_sent : FragmentBuffer → ℕ → FragmentBuffer
complete_if_sent b seq = if is_complete seq b.data_buffers then complete_sequence b seq else b

-- `checkSentWindows`; the clock is read once.
unfoldable pub check_sent_windows : Config → ℕ → FragmentBuffer → ℕ → FragmentBuffer
check_sent_windows c now b seq =
    let done = complete_if_sent b seq in
    if has_timed_out c now seq b.data_buffers
    then pass_many (seq + 1 - done.next_sequence_id) done
    else done
