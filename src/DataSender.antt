-- ===== src/DataSender.antt =====
-- artdaq/DAQrate/DataSenderManager.cc and .hh: where a fragment is sent, over the routing table of
-- TableReceiver and the counts of FragCounter. The transfer plugins are the parameter `Links`.
pub mod Laws
pub mod Sent
mod Tests
use artdaq.Prelude.Ord.{nat_ord, int_ord}
use artdaq.TableReceiver.{
  TableReceiver, TableUpdate, routing_failed, get_routing_table_entry, remove_routing_table_entry,
}
use artdaq.Prelude.{
  if◌then◌else◌, length, ℕ, zero, suc, ◌+◌, ◌%◌, Bool, true, false, not, ◌&&◌, ◌||◌, Option, none,
  some, List, [], ◌∷◌,
}
use artdaq.Prelude.Int.{eqb_ℤ, ℤ}
use artdaq.Prelude.Words.{to_u64}
use artdaq.Map.{Assoc, contains, erase, KeySet}
use artdaq.FragCounter.{inc_slot, slot_count}

pub data CopyStatus : Type 0 where
  success timed_out error_not_requiring_exception : CopyStatus

-- A fragment as far as it is read here; `is_system` holds for the types EndOfRun, EndOfSubrun and Init.
pub record Outgoing : Type 0 where
  pub sequence_id : ℕ
  pub is_end_of_data : Bool
  pub is_system : Bool

-- All transfers together: a send to a rank in reliable mode, and in minimum-blocking mode with the
-- timeout configured.
pub record Links : Type 1 where
  pub Link : Type 0
  pub transfer_reliable : ℤ → Outgoing → Link → Link × CopyStatus
  pub transfer_min_blocking : ℤ → Outgoing → Link → Link × CopyStatus

pub record DataSender (Link : Type 0) : Type 0 where
  pub link : Link
  pub destinations : KeySet ℤ
  pub enabled_destinations : KeySet ℤ
  pub sent_frag_count : Assoc ℕ ℕ
  pub broadcast_sends : Bool
  pub non_blocking_mode : Bool
  pub send_retry_count : ℕ
  pub table_receiver : TableReceiver
  pub sent_sequence_id_count : Assoc ℕ ℕ

unfoldable pub is_success : CopyStatus → Bool
is_success success = true
is_success timed_out = false
is_success error_not_requiring_exception = false

unfoldable pub is_timeout : CopyStatus → Bool
is_timeout success = false
is_timeout timed_out = true
is_timeout error_not_requiring_exception = false

-- The loop of `calcDest_`: `index` steps of an iterator that goes round.
unfoldable pub walk : KeySet ℤ → ℕ → KeySet ℤ → ℤ
walk ring index [] = routing_failed
walk ring zero ((d, u) ∷ rest) = d
walk ring (suc index) ((d, u) ∷ []) = walk ring index ring
walk ring (suc index) ((d, u) ∷ e ∷ rest) = walk ring index (e ∷ rest)

-- `index = sequence_id % size`, where there is more than one destination.
unfoldable pub by_turns : ℕ → KeySet ℤ → ℤ
by_turns seq [] = routing_failed
by_turns seq ((d, u) ∷ []) = d
by_turns seq (p ∷ q ∷ rest) = walk (p ∷ q ∷ rest) (seq % length (p ∷ q ∷ rest)) (p ∷ q ∷ rest)

unfoldable pub first_wait : List (List (List TableUpdate)) → List (List TableUpdate)
first_wait [] = []
first_wait (rounds ∷ more) = rounds

-- A send, up to `tries` times, as long as the status says so.
unfoldable pub attempt :
    {Link : Type 0}
    → (CopyStatus → Bool)
    → (Link → Link × CopyStatus)
    → ℕ
    → Link
    → CopyStatus
    → Link × CopyStatus
attempt again send zero l status = (l, status)
attempt again send (suc tries) l status =
    let further = attempt again send tries (send l).0 (send l).1 in
    if again status then further else (l, status)

unfoldable pub count_sequence : ℕ → Assoc ℕ ℕ → Assoc ℕ ℕ
count_sequence seq counts = inc_slot seq 1 counts

unfoldable pub get_sent_sequence_id_count : {Link : Type 0} → DataSender Link → ℕ → ℕ
get_sent_sequence_id_count d seq = slot_count seq d.sent_sequence_id_count

unfoldable pub remove_entry : {Link : Type 0} → DataSender Link → ℕ → DataSender Link
remove_entry d seq = record d {
  table_receiver = remove_routing_table_entry seq d.table_receiver;
  sent_sequence_id_count = erase seq d.sent_sequence_id_count;
}

module _ (L : Links) where
  unfoldable pub calc_among :
      List (List TableUpdate) → ℕ → TableReceiver → KeySet ℤ → TableReceiver × ℤ
  calc_among rounds seq t [] = (t, routing_failed)
  calc_among rounds seq t (p ∷ rest) =
      if t.use_routing_manager
      then get_routing_table_entry seq rounds t
      else (t, by_turns seq (p ∷ rest))

  -- `calcDest_`, with the updates that come while it waits for the table.
  unfoldable pub calc_dest : List (List TableUpdate) → ℕ → DataSender L.Link → TableReceiver × ℤ
  calc_dest rounds seq d = calc_among rounds seq d.table_receiver d.enabled_destinations

  -- The wait for a destination in blocking mode: the updates in each of its tries, of which there are
  -- as many as the stop leaves.
  unfoldable pub wait_for_dest :
      List (List (List TableUpdate)) → ℕ → DataSender L.Link → DataSender L.Link × ℤ
  wait_for_dest [] seq d = (d, routing_failed)
  wait_for_dest (rounds ∷ more) seq d =
      let got = calc_dest rounds seq d in
      let now = record d { table_receiver = got.0 } in
      let further = wait_for_dest more seq now in
      if eqb_ℤ got.1 routing_failed then further else (now, got.1)

  unfoldable pub is_reachable : DataSender L.Link → ℤ → Bool
  is_reachable d dest =
      not (eqb_ℤ dest routing_failed)
      && contains dest d.destinations
      && contains dest d.enabled_destinations

  unfoldable pub counted : ℤ → L.Link × CopyStatus → DataSender L.Link → DataSender L.Link
  counted dest sent d = record d {
    link = sent.0;
    sent_frag_count = inc_slot (to_u64 dest) 1 d.sent_frag_count;
  }

  unfoldable pub worse : CopyStatus → CopyStatus → CopyStatus
  worse status so_far = if is_success status then so_far else status

  -- The sends of a broadcast, to the enabled destinations in turn.
  unfoldable pub broadcast_to :
      Outgoing → KeySet ℤ → DataSender L.Link → CopyStatus → DataSender L.Link × CopyStatus
  broadcast_to f [] d so_far = (d, so_far)
  broadcast_to f ((dest, u) ∷ rest) d so_far =
      let send =
        if d.non_blocking_mode
        then L.transfer_min_blocking dest f
        else L.transfer_reliable dest f in
      let sent = attempt is_timeout send (d.send_retry_count + 1) d.link timed_out in
      broadcast_to f rest (counted dest sent d) (worse sent.1 so_far)

  -- A destination that is not reachable is only logged.
  unfoldable pub send_non_blocking :
      Outgoing → DataSender L.Link → ℤ → DataSender L.Link × CopyStatus
  send_non_blocking f d dest =
      let sent =
        attempt (λ s. not (is_success s)) (L.transfer_min_blocking dest f) (d.send_retry_count + 1)
          d.link error_not_requiring_exception in
      if is_reachable d dest then (counted dest sent d, worse sent.1 success) else (d, success)

  unfoldable pub send_blocking : Outgoing → DataSender L.Link → ℤ → DataSender L.Link × CopyStatus
  send_blocking f d dest =
      let sent = L.transfer_reliable dest f d.link in
      if is_reachable d dest then (counted dest sent d, sent.1) else (d, success)

  -- The count of the sequence ID, and the answer.
  unfoldable pub recorded :
      Outgoing → ℤ → DataSender L.Link × CopyStatus → DataSender L.Link × ℤ × CopyStatus
  recorded f dest (d, status) =
      let d' = record d {
        sent_sequence_id_count = count_sequence f.sequence_id d.sent_sequence_id_count;
      } in
      (if f.is_system then d else d', dest, status)

  -- `sendFragment`, or `none` for the exception on an end-of-data fragment.
  unfoldable pub send_fragment :
      List (List (List TableUpdate))
      → Outgoing
      → DataSender L.Link
      → Option (DataSender L.Link × ℤ × CopyStatus)
  send_fragment waits f d =
      let got = calc_dest (first_wait waits) f.sequence_id d in
      let now = record d { table_receiver = got.0 } in
      let waited = wait_for_dest waits f.sequence_id d in
      if f.is_end_of_data
      then none
      else if d.broadcast_sends || f.is_system
      then some (recorded f routing_failed (broadcast_to f d.enabled_destinations d success))
      else if d.non_blocking_mode
      then some (recorded f got.1 (send_non_blocking f now got.1))
      else some (recorded f waited.1 (send_blocking f waited.0 waited.1))
