-- ===== src/FragmentBuffer/Tests.antt =====
-- The fragment buffer at concrete fragments.
use artdaq.Prelude.Ord.{nat_ord}
use artdaq.RequestBuffer.{new as new_request_buffer, push, RequestBuffer}
use artdaq.FragmentBuffer.{
  Fragment, DataBuffer, Config, FragmentBuffer, RequestMode, other_fragment, buffer, window, empty,
  container,
}
use artdaq.Prelude.{
  ℕ, ◌≡◌, refl, true, false, Option, none, some, List, [], ◌∷◌, arith, ◌≤◌, ◌<◌, ◌⊎◌,
}
use artdaq.Prelude.Int.{pos}
use artdaq.Map.{contains, lookup}
use artdaq.FragmentBuffer.Answers.{
  send_empty_fragments-answers, with_fragments, reset_keeps_windows,
}
use artdaq.FragmentBuffer.Apply.{apply_mode}
use artdaq.FragmentBuffer.Check.{
  drop_stale, stale_before, is_checked, check_data_buffer, send_empty_fragments, is_complete,
  has_timed_out, pass_sequence, complete_sequence, complete_if_sent, check_sent_windows,
}
use artdaq.FragmentBuffer.Depth.{IsAccounted}
use artdaq.FragmentBuffer.Depth.Apply.{apply_mode-AreAccounted}
use artdaq.FragmentBuffer.Depth.Fresh.{CheckedInOrder, check_data_buffer-Checked}
use artdaq.FragmentBuffer.Depth.Modes.{AreAccounted}
use artdaq.FragmentBuffer.Fill.{reset, data_buffer_is_too_large, drop_front, shrink}
use artdaq.FragmentBuffer.Sequence.{search_data_buffers}
use artdaq.FragmentBuffer.Window.{
  window_min, window_max, any_before, seek_back, is_past, collect, fill_window, fill_data_buffers,
}
use artdaq.FragmentBuffer.Window.Contents.{fill_window-contents}
use artdaq.FragmentBuffer.Due.{check_sent_windows-next}
use artdaq.FragmentBuffer.Sequence.Contents.{AllAnswered, search-answers}

abbrev at_time : ℕ → ℕ → Fragment
at_time seq time = record {
  fragment_id = 7;
  type = other_fragment 1;
  sequence_id = seq;
  timestamp = time;
  size_bytes = 100;
}

abbrev three : List Fragment
three = at_time 1 10 ∷ at_time 2 20 ∷ at_time 3 30 ∷ []

abbrev three_buffer : DataBuffer
three_buffer = record {
  depth_fragments = pos 3;
  depth_bytes = 300;
  windows_sent = [];
  buffer_fragment_kept = false;
  highest_request_seen = 0;
  fragments = three;
}

abbrev in_mode : RequestMode → Config
in_mode mode = record {
  mode = mode;
  buffer_mode_keep_latest = false;
  window_offset = 0;
  window_width = 15;
  stale_timeout = 15;
  unique_windows = true;
  send_missing_fragments = true;
  missing_request_window_timeout_us = 5000000;
  window_close_timeout_us = 2000000;
  circular_data_buffer_mode = false;
  max_depth_fragments = pos 2;
  max_depth_bytes = 1000;
}

abbrev requested : RequestBuffer
requested = push (new_request_buffer 1) 2 20 5

abbrev filled : FragmentBuffer
filled = record {
  next_sequence_id = 1;
  has_request_buffer = true;
  request_buffer = requested;
  data_buffers = (7, three_buffer) ∷ [];
  system_fragments = [];
  system_fragment_count = 0;
  should_stop = false;
}

abbrev ap_fragments : Option DataBuffer → Option (List Fragment)
ap_fragments none = none
ap_fragments (some d) = some d.fragments

three-IsAccounted : IsAccounted three_buffer
three-IsAccounted = ((omega arith, (omega arith, (omega arith, tt))), refl, omega arith)

-- The oldest fragment goes because the buffer is too large, and the others are fresh.
oldest_dropped :
    ap_fragments (check_data_buffer (in_mode window) three_buffer)
    ≡ some (at_time 2 20 ∷ at_time 3 30 ∷ [])
unfolding check_data_buffer is_checked shrink data_buffer_is_too_large drop_front stale_before
    drop_stale
oldest_dropped = refl

-- The window from 20 to 35 takes the last two.
window_taken :
    (fill_window (in_mode window) 9 7 2 20 false three_buffer).1
    ≡ container 2 7 20 true (at_time 2 20 ∷ at_time 3 30 ∷ [])
unfolding fill_window seek_back any_before collect window_min window_max is_past
window_taken = refl

check_data_buffer-Checked_example :
    CheckedInOrder (in_mode window) three (check_data_buffer (in_mode window) three_buffer)
unfolding is_checked
check_data_buffer-Checked_example =
    check_data_buffer-Checked (in_mode window) three_buffer refl three-IsAccounted
      (omega arith, omega arith) ((omega arith, (omega arith, tt)), ((omega arith, tt), (tt, tt)))

apply_mode-AreAccounted_example :
    AreAccounted (apply_mode 0 (in_mode window) 9 window filled []).0.data_buffers
apply_mode-AreAccounted_example =
    apply_mode-AreAccounted 0 (in_mode window) 9 window filled [] (three-IsAccounted, tt)

fill_window-contents_example :
    ((fill_window (in_mode window) 9 7 2 20 false three_buffer).1
      ≡ container 2 7 20 true (at_time 2 20 ∷ at_time 3 30 ∷ []))
    × ((fill_window (in_mode window) 9 7 2 20 false three_buffer).0.fragments ≡ at_time 1 10 ∷ [])
unfolding window_min window_max
fill_window-contents_example =
    fill_window-contents (in_mode window) 9 7 2 20 false three_buffer
      ((ground arith, (ground arith, tt)), ((ground arith, tt), (tt, tt)))

send_empty_fragments-answers_example :
    ((send_empty_fragments (in_mode buffer) filled ((3, 30) ∷ []) []).0.next_sequence_id ≡ 3)
    × ((send_empty_fragments (in_mode buffer) filled ((3, 30) ∷ []) []).1
        ≡ empty 1 7 ∷ empty 2 7 ∷ [])
send_empty_fragments-answers_example =
    send_empty_fragments-answers (in_mode buffer) filled 3 30 [] [] refl (omega arith) (omega arith)

search-answers_example :
    ((search_data_buffers 9 2 filled.data_buffers).1 ≡ at_time 2 20 ∷ [])
    × AllAnswered 2 filled.data_buffers (search_data_buffers 9 2 filled.data_buffers).0
unfolding contains
search-answers_example = search-answers 9 2 filled.data_buffers

-- Every data buffer gets the same three fragments here.
abbrev same_three : ℕ → List Fragment
same_three id = three

abbrev sent_before : FragmentBuffer
sent_before = record filled {
  data_buffers = (7, record three_buffer { windows_sent = (2, 4) ∷ [] }) ∷ [];
}

reset_keeps_windows_example :
    fill_data_buffers
      (in_mode window)
      requested
      9
      2
      20
      (with_fragments same_three (reset sent_before false).data_buffers)
    ≡ (with_fragments same_three (reset sent_before false).data_buffers, [])
unfolding contains
reset_keeps_windows_example =
    reset_keeps_windows (in_mode window) requested 9 2 20 sent_before false same_three (refl, tt)

-- The next request, 1, was answered from the only data buffer.
abbrev answered_one : FragmentBuffer
answered_one = record filled {
  data_buffers =
      (7, record three_buffer { windows_sent = (1, 4) ∷ []; highest_request_seen = 1 }) ∷ [];
}

-- It is complete, and the next one is due.
one_passed : (check_sent_windows (in_mode window) 9 answered_one 1).next_sequence_id ≡ 2
unfolding check_sent_windows complete_if_sent is_complete complete_sequence pass_sequence
    has_timed_out contains lookup
one_passed = refl

check_sent_windows-next_example :
    (1 ≤ (check_sent_windows (in_mode window) 9 answered_one 1).next_sequence_id)
    × (((check_sent_windows (in_mode window) 9 answered_one 1).next_sequence_id ≡ 1)
        ⊎ ((check_sent_windows (in_mode window) 9 answered_one 1).next_sequence_id ≡ 2))
    × ((has_timed_out (in_mode window) 9 1 answered_one.data_buffers ≡ false)
        ⊎ (1 < (check_sent_windows (in_mode window) 9 answered_one 1).next_sequence_id))
check_sent_windows-next_example =
    check_sent_windows-next (in_mode window) 9 answered_one 1 (omega arith) (omega arith)
