-- ===== src/TableReceiver/Tests.antt =====
-- The routing table at concrete updates.
use artdaq.Prelude.Ord.{nat_ord}
use artdaq.Routing.Packet.{RoutingPacketEntry}
use artdaq.Prelude.{ℕ, ◌≡◌, refl, true, some, [], ◌∷◌, arith}
use artdaq.Prelude.Int.{pos}
use artdaq.Map.{lookup, contains}
use artdaq.TableReceiver.{
  new_receiver, last_sequence, receive_table_update, receive_all, awaited, wait_for_entry,
  TableReceiver,
}
use artdaq.TableReceiver.Laws.{rank_in, or_else, receive_entries-lookup, get_entry_again}

abbrev row : ℕ → ℕ → RoutingPacketEntry
row seq rank = record { sequence_id = seq; destination_rank = pos rank }

abbrev knows_five : TableReceiver
knows_five = record (new_receiver true) { routing_table = (5, pos 1) ∷ [] }

receive_entries-lookup_example :
    lookup 6
      (receive_table_update
        (record { has_magic = true; entries = row 5 2 ∷ row 6 3 ∷ [] })
        knows_five).0.routing_table
    ≡ or_else (lookup 6 knows_five.routing_table) (rank_in 6 (row 5 2 ∷ row 6 3 ∷ []))
unfolding new_receiver contains last_sequence
receive_entries-lookup_example =
    receive_entries-lookup (row 5 2) (row 6 3 ∷ []) knows_five 6 refl
      (refl, omega arith, (refl, omega arith, tt)) refl

get_entry_again_example :
    (wait_for_entry 5 ([] ∷ []) (
      receive_all
        (record { has_magic = true; entries = row 5 2 ∷ [] } ∷ [])
        (wait_for_entry 5 ([] ∷ []) knows_five).0)).1
    ≡ some (pos 1)
unfolding new_receiver wait_for_entry receive_all awaited lookup
get_entry_again_example =
    get_entry_again 5 ([] ∷ []) (record { has_magic = true; entries = row 5 2 ∷ [] } ∷ []) [] []
      knows_five (pos 1) refl
