-- ===== src/FragmentBuffer/Due.antt =====
-- `checkSentWindows`: which request is due next, and which requests are removed.
use artdaq.Prelude.Ord.{nat_ord}
use artdaq.Map.Laws.{contains-erase}
use artdaq.RequestBuffer.{remove_request, RequestBuffer}
use artdaq.FragmentBuffer.{FragmentBuffer, Config}
use artdaq.FragmentBuffer.Check.{
  pass_sequence, pass_many, complete_sequence, complete_if_sent, check_sent_windows, is_complete,
  has_timed_out,
}
use artdaq.Prelude.{ℕ, zero, suc, ◌+◌, ◌-◌, ◌^◌, ◌≤◌, ◌<◌, ◌≡◌, ◌∙◌, ◌⊎◌, Bool, true, false, arith}
use artdaq.Map.{contains}

pass_many-next :
    (count : ℕ) (b : FragmentBuffer)
    → b.next_sequence_id + count < 2 ^ 64
    → (pass_many count b).next_sequence_id ≡ b.next_sequence_id + count
unfolding pass_many pass_sequence
pass_many-next zero b h = omega arith
pass_many-next (suc count) b h = pass_many-next count (pass_sequence b) (omega arith) ∙ omega arith

complete_if_sent-next :
    (b : FragmentBuffer) (seq : ℕ)
    → b.next_sequence_id + 1 < 2 ^ 64
    → ((complete_if_sent b seq).next_sequence_id ≡ b.next_sequence_id)
      ⊎ ((b.next_sequence_id ≡ seq)
          × ((complete_if_sent b seq).next_sequence_id ≡ b.next_sequence_id + 1))
unfolding complete_if_sent complete_sequence pass_sequence
complete_if_sent-next b seq h = ground arith

-- As long as the sequence IDs do not wrap, `checkSentWindows` never takes the next expected sequence
-- ID back, and takes it at most to the one after the checked request. Where the request has timed
-- out in some data buffer, the next expected sequence ID is past it.
pub check_sent_windows-next :
    (c : Config) (now : ℕ) (b : FragmentBuffer) (seq : ℕ)
    → b.next_sequence_id + 1 < 2 ^ 64
    → seq + 1 < 2 ^ 64
    → (b.next_sequence_id ≤ (check_sent_windows c now b seq).next_sequence_id)
      × (((check_sent_windows c now b seq).next_sequence_id ≡ b.next_sequence_id)
          ⊎ ((check_sent_windows c now b seq).next_sequence_id ≡ seq + 1))
      × ((has_timed_out c now seq b.data_buffers ≡ false)
          ⊎ (seq < (check_sent_windows c now b seq).next_sequence_id))
unfolding check_sent_windows
check_sent_windows-next c now b seq h l =
    let done = complete_if_sent b seq in
    let next = complete_if_sent-next b seq h in
    ground (arith, next, pass_many-next (seq + 1 - done.next_sequence_id) done, h, l)

-- The request is pending.
abbrev pub is_pending : ℕ → FragmentBuffer → Bool
is_pending seq b = contains seq b.request_buffer.requests

remove_request-gone :
    (r : RequestBuffer) (seq other : ℕ)
    → contains seq r.requests ≡ false
    → contains seq (remove_request r other).requests ≡ false
unfolding remove_request
remove_request-gone r seq other h = ground (arith, contains-erase seq other r.requests, h)

remove_request-removed :
    (r : RequestBuffer) (seq : ℕ) → contains seq (remove_request r seq).requests ≡ false
unfolding remove_request
remove_request-removed r seq = ground (arith, contains-erase seq seq r.requests)

pass_many-gone :
    (count seq : ℕ) (b : FragmentBuffer)
    → is_pending seq b ≡ false
    → is_pending seq (pass_many count b) ≡ false
unfolding pass_many pass_sequence
pass_many-gone zero seq b h = h
pass_many-gone (suc count) seq b h =
    pass_many-gone count seq (pass_sequence b)
      (remove_request-gone b.request_buffer seq b.next_sequence_id h)

complete_if_sent-gone :
    (b : FragmentBuffer) (seq : ℕ)
    → is_complete seq b.data_buffers ≡ true
    → is_pending seq (complete_if_sent b seq) ≡ false
unfolding complete_if_sent complete_sequence pass_sequence
complete_if_sent-gone b seq h = ground (
  arith,
  h,
  remove_request-removed b.request_buffer seq,
  remove_request-removed b.request_buffer b.next_sequence_id,
)

-- Once every data buffer has answered a request, `checkSentWindows` for it leaves it no longer
-- pending, whatever else has timed out.
pub check_sent_windows-gone :
    (c : Config) (now : ℕ) (b : FragmentBuffer) (seq : ℕ)
    → is_complete seq b.data_buffers ≡ true
    → is_pending seq (check_sent_windows c now b seq) ≡ false
unfolding check_sent_windows
check_sent_windows-gone c now b seq h =
    let done = complete_if_sent b seq in
    let gone = complete_if_sent-gone b seq h in
    ground (arith, gone, pass_many-gone (seq + 1 - done.next_sequence_id) seq done gone)
