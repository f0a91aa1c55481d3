-- ===== src/Routing/Packet.antt =====
-- RoutingPacket.hh: the rows of a routing table, and the modes of a RoutingManager.
use Prim.Native.String.{String}
use text.Mathlib.Text.{◌==◌ as str_eq}
use artdaq.Prelude.{ℕ, if◌then◌else◌, ◌+◌, ◌≡◌, refl, ◌||◌, List, [], ◌∷◌, ◌++◌, map}
use artdaq.Prelude.Int.{ℤ, negsuc}
use artdaq.Prelude.Words.{u64}

pub data RoutingManagerMode : Type 0 where
  event_building request_based_event_building data_flow invalid : RoutingManagerMode

unfoldable pub string_to_routing_manager_mode : String → RoutingManagerMode
string_to_routing_manager_mode s =
    if str_eq s "EventBuilding" || str_eq s "eventbuilding"
    then event_building
    else if str_eq s "RequestBasedEventBuilding"
        || str_eq s "requestbasedeventbuilding"
        || str_eq s "RequestBased"
        || str_eq s "requestbased"
    then request_based_event_building
    else if str_eq s "DataFlow" || str_eq s "dataflow"
    then data_flow
    else invalid

unfoldable pub routing_manager_mode_to_string : RoutingManagerMode → String
routing_manager_mode_to_string event_building = "EventBuilding"
routing_manager_mode_to_string request_based_event_building = "RequestBasedEventBuilding"
routing_manager_mode_to_string data_flow = "DataFlow"
routing_manager_mode_to_string invalid = "INVALID"

pub string_to_routing_manager_mode-routing_manager_mode_to_string :
    (m : RoutingManagerMode) → string_to_routing_manager_mode (routing_manager_mode_to_string m) ≡ m
unfolding string_to_routing_manager_mode routing_manager_mode_to_string
string_to_routing_manager_mode-routing_manager_mode_to_string event_building = refl
string_to_routing_manager_mode-routing_manager_mode_to_string request_based_event_building = refl
string_to_routing_manager_mode-routing_manager_mode_to_string data_flow = refl
string_to_routing_manager_mode-routing_manager_mode_to_string invalid = refl

-- A row of the routing table.
pub record RoutingPacketEntry : Type 0 where
  pub sequence_id : ℕ
  pub destination_rank : ℤ

abbrev pub RoutingPacket : Type 0
RoutingPacket = List RoutingPacketEntry

-- `RoutingPacketEntry(seq, rank)`
abbrev pub entry : ℕ → ℤ → RoutingPacketEntry
entry seq rank = record { sequence_id = seq; destination_rank = rank }

-- `RoutingPacketEntry()`, for artdaq-core's `InvalidSequenceID`.
abbrev pub default_entry : ℕ → RoutingPacketEntry
default_entry invalid_sequence_id = entry invalid_sequence_id (negsuc 0)

-- The rows carry consecutive sequence IDs from `n` on, and `n'` is the one after them.
abbrev pub Consecutive : ℕ → RoutingPacket → ℕ → Type 0
Consecutive n [] n' = n ≡ n'
Consecutive n (e ∷ es) n' = (e.sequence_id ≡ n) × Consecutive (u64 (n + 1)) es n'

pub Consecutive-append :
    (n : ℕ) (es : RoutingPacket) (k : ℕ) (fs : RoutingPacket) (m : ℕ)
    → Consecutive n es k
    → Consecutive k fs m
    → Consecutive n (es ++ fs) m
Consecutive-append n [] k fs m p q = rw p q
Consecutive-append n (e ∷ es) k fs m p q = (p.0, Consecutive-append (u64 (n + 1)) es k fs m p.1 q)

-- The ranks that the rows route to, in order.
abbrev pub destinations : RoutingPacket → List ℤ
destinations = map (λ e. e.destination_rank)
