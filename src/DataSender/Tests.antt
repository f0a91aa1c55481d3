-- ===== src/DataSender/Tests.antt =====
-- Sends to concrete destinations.
use artdaq.Prelude.Ord.{int_ord}
use artdaq.FragCounter.{inc_slot}
use artdaq.TableReceiver.{new_receiver}
use artdaq.Prelude.{length, ◌%◌, ◌≡◌, refl, true, false, some, List, [], ◌∷◌, arith}
use artdaq.Prelude.Int.{ℤ, pos}
use artdaq.Map.{contains}
use artdaq.DataSender.{
  by_turns, first_wait, count_sequence, calc_among, calc_dest, is_reachable, send_fragment,
  send_non_blocking, recorded, counted, attempt, is_success, worse, Outgoing, Links, DataSender,
  success, timed_out, walk,
}
use artdaq.DataSender.Laws.{rank_at, calc_dest-turns}

-- Links that remember the ranks they sent to.
abbrev remembering : Links
remembering = record {
  Link = List ℤ;
  transfer_reliable = λ rank f sent. (rank ∷ sent, success);
  transfer_min_blocking = λ rank f sent. (rank ∷ sent, timed_out);
}

abbrev two_enabled : DataSender (List ℤ)
two_enabled = record {
  link = [];
  destinations = (pos 3, tt) ∷ (pos 8, tt) ∷ [];
  enabled_destinations = (pos 3, tt) ∷ (pos 8, tt) ∷ [];
  sent_frag_count = [];
  broadcast_sends = false;
  non_blocking_mode = true;
  send_retry_count = 2;
  table_receiver = new_receiver false;
  sent_sequence_id_count = [];
}

abbrev fifth : Outgoing
fifth = record { sequence_id = 5; is_end_of_data = false; is_system = false }

calc_dest-turns_example :
    ((calc_dest remembering [] 5 two_enabled).1
      ≡ rank_at (5 % length two_enabled.enabled_destinations) two_enabled.enabled_destinations)
    × (contains (calc_dest remembering [] 5 two_enabled).1 two_enabled.enabled_destinations ≡ true)
unfolding new_receiver
calc_dest-turns_example = calc_dest-turns remembering [] 5 two_enabled refl (omega arith)

-- Three tries to the rank whose turn it is.
fifth_sent :
    send_fragment remembering [] fifth two_enabled
    ≡ some (
      record two_enabled {
        link = pos 8 ∷ pos 8 ∷ pos 8 ∷ [];
        sent_frag_count = inc_slot 8 1 [];
        sent_sequence_id_count = count_sequence 5 [];
      },
      pos 8,
      timed_out,
    )
unfolding send_fragment send_non_blocking recorded counted is_reachable contains calc_dest
    calc_among by_turns first_wait walk attempt is_success new_receiver worse
fifth_sent = refl
