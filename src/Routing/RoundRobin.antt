-- ===== src/Routing/RoundRobin.antt =====
-- artdaq/RoutingPolicies/RoundRobin_policy.cc
pub mod Laws
use artdaq.Prelude.Ord.{int_ord}
use artdaq.Routing.Packet.{RoutingPacket, entry, default_entry, RoutingPacketEntry}
use artdaq.Routing.Tokens.{
  get_receiver_count, sort_tokens, restore_unused_tokens, calculate_minimum, too_few, TokenState,
}
use artdaq.Routing.Turns.{turns, total}
use artdaq.Prelude.{if◌then◌else◌, ℕ, suc, ◌-◌, [], ◌∷◌, ◌++◌, map}
use artdaq.Prelude.Int.{ℤ}
use artdaq.Map.{Assoc, KeySet}

-- The private members.
pub record RoundRobinPolicy : Type 0 where
  pub minimum_participants : ℤ
  pub receivers_in_current_round : KeySet ℤ

-- `CreateRoutingTable`. The loop gets one round of fuel more than there are tokens.
unfoldable pub create_routing_table :
    RoundRobinPolicy → TokenState → RoutingPacket → RoundRobinPolicy × TokenState × RoutingPacket
create_routing_table o s output =
    let table = sort_tokens s.tokens in
    let minimum = calculate_minimum o.minimum_participants (get_receiver_count s) in
    let done = turns (suc (total table)) minimum s.next_sequence_id table in
    (
      o,
      record s { tokens = restore_unused_tokens done.left; next_sequence_id = done.next },
      output ++ done.added,
    )

abbrev pub to_set : Assoc ℤ ℕ → KeySet ℤ
to_set = map (λ p. (p.0, tt))

abbrev pub spend_each : Assoc ℤ ℕ → Assoc ℤ ℕ
spend_each = map (λ p. (p.0, p.1 - 1))

-- The new round: every receiver in the table, of which the first gets this sequence ID. The table
-- is not empty here.
unfoldable pub start_round :
    ℕ
    → RoundRobinPolicy
    → TokenState
    → ℕ
    → Assoc ℤ ℕ
    → RoundRobinPolicy × TokenState × RoutingPacketEntry
start_round invalid_sequence_id o s seq [] =
    (o, record s { tokens = [] }, default_entry invalid_sequence_id)
start_round invalid_sequence_id o s seq ((r, n) ∷ table) = (
  record o { receivers_in_current_round = to_set table },
  record s { tokens = restore_unused_tokens (spend_each ((r, n) ∷ table)) },
  entry seq r,
)

-- The rest of `CreateRouteForSequenceID`, where no round is under way.
unfoldable pub next_round :
    ℕ → RoundRobinPolicy → TokenState → ℕ → RoundRobinPolicy × TokenState × RoutingPacketEntry
next_round invalid_sequence_id o s seq =
    let table = sort_tokens s.tokens in
    let minimum = calculate_minimum o.minimum_participants (get_receiver_count s) in
    if too_few table minimum
    then (o, record s { tokens = restore_unused_tokens table }, default_entry invalid_sequence_id)
    else start_round invalid_sequence_id o s seq table

-- `CreateRouteForSequenceID`. The requesting rank is not used.
unfoldable pub create_route_for_sequence_id :
    ℕ → RoundRobinPolicy → TokenState → ℕ → ℤ → RoundRobinPolicy × TokenState × RoutingPacketEntry
create_route_for_sequence_id invalid_sequence_id o s seq requesting_rank =
    elim o.receivers_in_current_round [
      | [] ↦ next_round invalid_sequence_id o s seq
      | r ∷ rest ↦ (record o { receivers_in_current_round = rest }, s, entry seq r.0)
    ]
