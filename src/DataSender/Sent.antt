-- ===== src/DataSender/Sent.antt =====
-- What becomes of one fragment: it is sent, or it is lost.
use artdaq.Prelude.Ord.{nat_ord, int_ord}
use artdaq.Prelude.{ℕ, zero, suc, ◌≤◌, ◌≡◌, ◌⊎◌, true, false, Option, none, some, if◌then◌else◌}
use artdaq.Prelude.Int.{ℤ}
use artdaq.Prelude.Words.{to_u64}
use artdaq.FragCounter.{inc_slot}
use artdaq.TableReceiver.{TableReceiver}
use artdaq.DataSender.{
  is_success, count_sequence, is_reachable, CopyStatus, Outgoing, Links, DataSender, success,
}

-- The links and the status after so many more sends.
abbrev pub times :
    {Link : Type 0} → (Link → Link × CopyStatus) → ℕ → Link × CopyStatus → Link × CopyStatus
times send zero sent = sent
times send (suc k) sent = times send k (send sent.0)

-- Each of the sends before the last one failed.
abbrev pub AllFailed : {Link : Type 0} → (Link → Link × CopyStatus) → ℕ → Link × CopyStatus → Type 0
AllFailed send zero sent = Unit
AllFailed send (suc k) sent = (is_success sent.1 ≡ false) × AllFailed send k (send sent.0)

-- A first send was repeated as long as it failed, at most `most` times.
abbrev pub Retried :
    {Link : Type 0}
    → (Link → Link × CopyStatus)
    → ℕ
    → Link × CopyStatus
    → Link × CopyStatus
    → Type 0
Retried send most first last =
    (k : ℕ) × (k ≤ most)
    × (last ≡ times send k first)
    × AllFailed send k first
    × ((is_success last.1 ≡ true) ⊎ (k ≡ most))

module _ (L : Links) where
  -- The send of the mode, and how often it is repeated at most.
  abbrev pub send_to : DataSender L.Link → ℤ → Outgoing → L.Link → L.Link × CopyStatus
  send_to d dest f =
      if d.non_blocking_mode then L.transfer_min_blocking dest f else L.transfer_reliable dest f

  abbrev pub most_retries : DataSender L.Link → ℕ
  most_retries d = if d.non_blocking_mode then d.send_retry_count else 0

  -- The fragment was sent, again where that failed, and counts for its destination.
  abbrev pub IsSent : Outgoing → DataSender L.Link → ℤ → DataSender L.Link → CopyStatus → Type 0
  IsSent f d dest e status =
      Retried (send_to d dest f) (most_retries d) (send_to d dest f d.link) (e.link, status)
      × (e.sent_frag_count ≡ inc_slot (to_u64 dest) 1 d.sent_frag_count)

  -- Nothing was sent, and no destination's count has changed; the answer is a success all the same.
  abbrev pub IsLost : DataSender L.Link → DataSender L.Link → CopyStatus → Type 0
  IsLost d e status =
      (e.link ≡ d.link) × (e.sent_frag_count ≡ d.sent_frag_count) × (status ≡ success)

  abbrev pub SentOrLost :
      Outgoing → DataSender L.Link → Option (DataSender L.Link × ℤ × CopyStatus) → Type 0
  SentOrLost f d none = ⊥
  SentOrLost f d (some (e, dest, status)) =
      (e.sent_sequence_id_count ≡ count_sequence f.sequence_id d.sent_sequence_id_count)
      × (((is_reachable L d dest ≡ true) × IsSent f d dest e status)
          ⊎ ((is_reachable L d dest ≡ false) × IsLost d e status))

  with_table : TableReceiver → DataSender L.Link → DataSender L.Link
  with_table t d = record d { table_receiver = t }
