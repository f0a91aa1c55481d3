-- ===== src/TableReceiver.antt =====
-- artdaq/DAQrate/detail/TableReceiver.cc and .hh: the routing table at a sender. What comes over the
-- socket is an argument: the packets that the receiving thread has read, and whether each has the magic
-- number. `Fragment::sequence_id_t` is a 64-bit number.
pub mod Laws
mod Tests
use artdaq.Prelude.Ord.{nat_ord}
use artdaq.Prelude.{
  ltb, leb, ◌==◌, if◌then◌else◌, length, ℕ, ◌+◌, Bool, true, false, not, Option, none, some, List,
  [], ◌∷◌,
}
use artdaq.Prelude.Int.{ℤ, negsuc}
use artdaq.Prelude.Words.{u64, sub64}
use artdaq.Map.{Assoc, lookup, contains, insert, erase}
use artdaq.Routing.Packet.{RoutingPacket, RoutingPacketEntry}

pub record TableReceiver : Type 0 where
  pub use_routing_manager : Bool
  pub routing_table : Assoc ℕ ℤ
  pub routing_table_last : ℕ
  pub highest_sequence_id_routed : ℕ

-- A table update: whether its header has `ROUTING_MAGIC`, and its entries.
pub record TableUpdate : Type 0 where
  pub has_magic : Bool
  pub entries : RoutingPacket

unfoldable pub new_receiver : Bool → TableReceiver
new_receiver use_routing_manager = record {
  use_routing_manager = use_routing_manager;
  routing_table = [];
  routing_table_last = 0;
  highest_sequence_id_routed = 0;
}

-- `TableReceiver::ROUTING_FAILED`, -1111.
abbrev pub routing_failed : ℤ
routing_failed = negsuc 1110

-- One entry: what the table has stays, and IDs below `low` are not taken.
unfoldable pub with_entry : ℕ → RoutingPacketEntry → Assoc ℕ ℤ → Assoc ℕ ℤ
with_entry low e table =
    if contains e.sequence_id table
    then table
    else if ltb e.sequence_id low
    then table
    else insert e.sequence_id e.destination_rank table

-- The loop over the entries, up to the first that is not the next in turn.
unfoldable pub with_entries : ℕ → ℕ → RoutingPacket → Assoc ℕ ℤ → Assoc ℕ ℤ
with_entries low expected [] table = table
with_entries low expected (e ∷ rest) table =
    let further = with_entries low (u64 (expected + 1)) rest (with_entry low e table) in
    if expected == e.sequence_id then further else table

-- `buffer.back().sequence_id`
unfoldable pub last_sequence : ℕ → RoutingPacket → ℕ
last_sequence first [] = first
last_sequence first (e ∷ rest) = last_sequence e.sequence_id rest

-- The part of `receiveTableUpdate_` after the packet was read.
unfoldable pub receive_entries : RoutingPacket → TableReceiver → TableReceiver × Bool
receive_entries [] t = (t, false)
receive_entries (e ∷ rest) t =
    let last = last_sequence e.sequence_id rest in
    if not (u64 (sub64 (e.sequence_id + length (e ∷ rest)) 1) == last)
    then (t, false)
    else if contains last t.routing_table
    then (t, true)
    else (
      record t {
        routing_table = with_entries t.routing_table_last e.sequence_id (e ∷ rest) t.routing_table;
      },
      true,
    )

unfoldable pub receive_table_update : TableUpdate → TableReceiver → TableReceiver × Bool
receive_table_update u t = if u.has_magic then receive_entries u.entries t else (t, false)

unfoldable pub receive_all : List TableUpdate → TableReceiver → TableReceiver
receive_all [] t = t
receive_all (u ∷ us) t = receive_all us (receive_table_update u t).0

-- `sendTableUpdateRequest_`: whether a request goes out.
unfoldable pub send_table_update_request : ℕ → TableReceiver → Bool
send_table_update_request seq t = not (contains seq t.routing_table)

unfoldable pub awaited :
    TableReceiver × Option ℤ → TableReceiver → Option ℤ → TableReceiver × Option ℤ
awaited further t none = further
awaited further t (some rank) = (t, some rank)

-- The wait of `GetRoutingTableEntry`: the updates that come in each of its rounds, of which there are
-- as many as the timeout or the stop of the receiver leaves.
unfoldable pub wait_for_entry :
    ℕ → List (List TableUpdate) → TableReceiver → TableReceiver × Option ℤ
wait_for_entry seq [] t = (t, none)
wait_for_entry seq (arrived ∷ rounds) t =
    let now = receive_all arrived t in
    awaited (wait_for_entry seq rounds now) now (lookup seq now.routing_table)

unfoldable pub or_failed : TableReceiver × Option ℤ → TableReceiver × ℤ
or_failed (t, none) = (t, routing_failed)
or_failed (t, some rank) = (t, rank)

unfoldable pub get_routing_table_entry :
    ℕ → List (List TableUpdate) → TableReceiver → TableReceiver × ℤ
get_routing_table_entry seq rounds t =
    if t.use_routing_manager then or_failed (wait_for_entry seq rounds t) else (t, routing_failed)

unfoldable pub get_and_clear_routing_table : TableReceiver → TableReceiver × Assoc ℕ ℤ
get_and_clear_routing_table t = (record t { routing_table = [] }, t.routing_table)

unfoldable pub get_routing_table_entry_count : TableReceiver → ℕ
get_routing_table_entry_count t = length t.routing_table

-- From `upper_bound(highest)` to the end of the table.
unfoldable pub count_above : ℕ → Assoc ℕ ℤ → ℕ
count_above highest [] = 0
count_above highest ((seq, rank) ∷ rest) =
    if leb seq highest then count_above highest rest else length ((seq, rank) ∷ rest)

unfoldable pub get_remaining_routing_table_entries : TableReceiver → ℕ
get_remaining_routing_table_entries t = count_above t.highest_sequence_id_routed t.routing_table

unfoldable pub remove_routing_table_entry : ℕ → TableReceiver → TableReceiver
remove_routing_table_entry seq t = record t { routing_table = erase seq t.routing_table }
