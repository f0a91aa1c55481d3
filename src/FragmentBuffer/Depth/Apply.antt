-- ===== src/FragmentBuffer/Depth/Apply.antt =====
-- The depths through one call of `applyRequests`.
use mathlib.Core.Path.{subst}
use artdaq.FragmentBuffer.Check.{
  send_empty_fragments, forget_window, pass_sequence, complete_sequence, complete_if_sent,
  pass_many, check_sent_windows,
}
use artdaq.FragmentBuffer.Modes.{
  wholes, take_request, finish_request, keep_last_request, answer_single, answer_buffer,
  apply_requests_single_mode, apply_requests_buffer_mode, apply_requests_ignored_mode,
}
use artdaq.FragmentBuffer.Window.{
  fill_data_buffers, window_requests, check_all_sent, sent_sequences, apply_requests_window_mode,
}
use artdaq.FragmentBuffer.Sequence.{
  search_data_buffers, sequence_requests, apply_requests_sequence_id_mode,
}
use artdaq.FragmentBuffer.Apply.{apply_mode}
use artdaq.RequestBuffer.{remove_request, get_requests}
use artdaq.FragmentBuffer.Depth.Modes.{
  AreAccounted, map_buffers-AreAccounted, take_all-AreAccounted, copy_buffers-AreAccounted,
  fill_data_buffers-AreAccounted, search_data_buffers-AreAccounted,
}
use artdaq.FragmentBuffer.{
  FragmentBuffer, Output, RequestMode, single, buffer, window, ignored, sequence_id_mode,
  DataBuffer, Config,
}
use artdaq.Prelude.Ord.{nat_ord}
use artdaq.FragmentBuffer.Depth.{IsAccounted}
use artdaq.Prelude.{
  ℕ, zero, suc, arith, ◌+◌, ◌-◌, ◌≡◌, refl, sym, List, [], ◌∷◌, ◌++◌, Option, none, some,
}
use artdaq.Map.{Assoc, KeySet}

forget_window-IsAccounted :
    (seq : ℕ) (d : DataBuffer) → IsAccounted d → IsAccounted (forget_window seq d)
unfolding forget_window
forget_window-IsAccounted seq d a = a

pass_sequence-AreAccounted :
    (b : FragmentBuffer) → AreAccounted b.data_buffers → AreAccounted (pass_sequence b).data_buffers
unfolding pass_sequence
pass_sequence-AreAccounted b a =
    map_buffers-AreAccounted (forget_window b.next_sequence_id) b.data_buffers
      (forget_window-IsAccounted b.next_sequence_id) a

pass_many-AreAccounted :
    (count : ℕ) (b : FragmentBuffer)
    → AreAccounted b.data_buffers
    → AreAccounted (pass_many count b).data_buffers
unfolding pass_many
pass_many-AreAccounted zero b a = a
pass_many-AreAccounted (suc count) b a =
    pass_many-AreAccounted count (pass_sequence b) (pass_sequence-AreAccounted b a)

complete_sequence-AreAccounted :
    (b : FragmentBuffer) (seq : ℕ)
    → AreAccounted b.data_buffers
    → AreAccounted (complete_sequence b seq).data_buffers
unfolding complete_sequence
complete_sequence-AreAccounted b seq a = ground (arith, pass_sequence-AreAccounted b a, a)

complete_if_sent-AreAccounted :
    (b : FragmentBuffer) (seq : ℕ)
    → AreAccounted b.data_buffers
    → AreAccounted (complete_if_sent b seq).data_buffers
unfolding complete_if_sent
complete_if_sent-AreAccounted b seq a = ground (arith, complete_sequence-AreAccounted b seq a, a)

check_sent_windows-AreAccounted :
    (c : Config) (now : ℕ) (b : FragmentBuffer) (seq : ℕ)
    → AreAccounted b.data_buffers
    → AreAccounted (check_sent_windows c now b seq).data_buffers
unfolding check_sent_windows
check_sent_windows-AreAccounted c now b seq a =
    let done = complete_if_sent b seq in
    let kept = complete_if_sent-AreAccounted b seq a in
    ground (arith, kept, pass_many-AreAccounted (seq + 1 - done.next_sequence_id) done kept)

module _ (invalid : ℕ) (c : Config) (now : ℕ) where
  window_requests-AreAccounted :
      (requests : Assoc ℕ ℕ) (b : FragmentBuffer) (frags : List Output)
      → AreAccounted b.data_buffers
      → AreAccounted (window_requests invalid c now requests b frags).0.data_buffers
  unfolding window_requests
  window_requests-AreAccounted [] b frags a = a
  window_requests-AreAccounted ((seq, ts) ∷ rest) b frags a =
      let filled = fill_data_buffers c b.request_buffer now seq ts b.data_buffers in
      ground (
        arith,
        window_requests-AreAccounted rest
            (record b { request_buffer = remove_request b.request_buffer seq }) frags a,
        window_requests-AreAccounted rest b frags a,
        window_requests-AreAccounted rest
            (check_sent_windows c now (record b { data_buffers = filled.0 }) seq)
            (frags ++ filled.1)
            (check_sent_windows-AreAccounted c now (record b { data_buffers = filled.0 }) seq
              (fill_data_buffers-AreAccounted c b.request_buffer now seq ts b.data_buffers a)),
      )

  sequence_requests-AreAccounted :
      (requests : Assoc ℕ ℕ) (b : FragmentBuffer) (frags : List Output)
      → AreAccounted b.data_buffers
      → AreAccounted (sequence_requests c now requests b frags).0.data_buffers
  unfolding sequence_requests
  sequence_requests-AreAccounted [] b frags a = a
  sequence_requests-AreAccounted ((seq, ts) ∷ rest) b frags a =
      let found = search_data_buffers now seq b.data_buffers in
      sequence_requests-AreAccounted rest
        (check_sent_windows c now (record b { data_buffers = found.0 }) seq)
        (frags ++ wholes found.1)
        (check_sent_windows-AreAccounted c now (record b { data_buffers = found.0 }) seq
          (search_data_buffers-AreAccounted now seq b.data_buffers a))

  check_all_sent-AreAccounted :
      (sequences : KeySet ℕ) (b : FragmentBuffer)
      → AreAccounted b.data_buffers
      → AreAccounted (check_all_sent c now sequences b).data_buffers
  unfolding check_all_sent
  check_all_sent-AreAccounted [] b a = a
  check_all_sent-AreAccounted ((seq, u) ∷ rest) b a =
      check_all_sent-AreAccounted rest (check_sent_windows c now b seq)
        (check_sent_windows-AreAccounted c now b seq a)

send_empty_fragments-buffers :
    (c : Config) (b : FragmentBuffer) (requests : Assoc ℕ ℕ) (frags : List Output)
    → (send_empty_fragments c b requests frags).0.data_buffers ≡ b.data_buffers
unfolding send_empty_fragments
send_empty_fragments-buffers c b [] frags = refl
send_empty_fragments-buffers c b ((seq, ts) ∷ rest) frags = refl

take_request-buffers :
    (c : Config) (b : FragmentBuffer) (frags : List Output)
    → (take_request c b frags).0.data_buffers ≡ b.data_buffers
unfolding take_request
take_request-buffers c b frags =
    let kept = keep_last_request (get_requests b.request_buffer) b.request_buffer in
    send_empty_fragments-buffers c (record b { request_buffer = kept.0 }) kept.1 frags

single-AreAccounted :
    (b : FragmentBuffer) (frags : List Output) (due : Option ℕ)
    → AreAccounted b.data_buffers
    → AreAccounted (answer_single b frags due).0.data_buffers
unfolding answer_single finish_request
single-AreAccounted b frags none a = a
single-AreAccounted b frags (some ts) a = a

buffer-AreAccounted :
    (c : Config) (b : FragmentBuffer) (frags : List Output) (due : Option ℕ)
    → AreAccounted b.data_buffers
    → AreAccounted (answer_buffer c b frags due).0.data_buffers
unfolding answer_buffer finish_request
buffer-AreAccounted c b frags none a = a
buffer-AreAccounted c b frags (some ts) a =
    copy_buffers-AreAccounted c b.next_sequence_id ts b.data_buffers frags a

-- In every mode, answering the requests keeps the depths of all data buffers right: the number of
-- fragments as an `int`, and their bytes as a `size_t`.
pub apply_mode-AreAccounted :
    (invalid : ℕ) (c : Config) (now : ℕ) (mode : RequestMode) (b : FragmentBuffer)
    (frags : List Output)
    → AreAccounted b.data_buffers
    → AreAccounted (apply_mode invalid c now mode b frags).0.data_buffers
unfolding apply_mode apply_requests_single_mode apply_requests_buffer_mode
    apply_requests_ignored_mode apply_requests_window_mode apply_requests_sequence_id_mode
apply_mode-AreAccounted invalid c now single b frags a =
    let taken = take_request c b frags in
    single-AreAccounted taken.0 taken.1 taken.2
      (subst AreAccounted (sym (take_request-buffers c b frags)) a)
apply_mode-AreAccounted invalid c now buffer b frags a =
    let taken = take_request c b frags in
    buffer-AreAccounted c taken.0 taken.1 taken.2
      (subst AreAccounted (sym (take_request-buffers c b frags)) a)
apply_mode-AreAccounted invalid c now window b frags a =
    let requests = get_requests b.request_buffer in
    let done = window_requests invalid c now requests b frags in
    check_all_sent-AreAccounted invalid c now (sent_sequences done.0.data_buffers) done.0
      (window_requests-AreAccounted invalid c now requests b frags a)
apply_mode-AreAccounted invalid c now ignored b frags a =
    take_all-AreAccounted b.next_sequence_id b.data_buffers frags
apply_mode-AreAccounted invalid c now sequence_id_mode b frags a =
    let requests = get_requests b.request_buffer in
    let done = sequence_requests c now requests b frags in
    check_all_sent-AreAccounted invalid c now (sent_sequences done.0.data_buffers) done.0
      (sequence_requests-AreAccounted invalid c now requests b frags a)
