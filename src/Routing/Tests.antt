-- ===== src/Routing/Tests.antt =====
-- The policies and the manager at concrete tokens.
use artdaq.Prelude.Ord.{nat_ord, int_ord}
use artdaq.Routing.Restore.{sort-restore}
use artdaq.Routing.RoundRobin.{RoundRobinPolicy, create_routing_table, create_route_for_sequence_id}
use artdaq.Prelude.{
  ℕ, ◌≡◌, refl, [], ◌∷◌, arith, if◌then◌else◌, length, ◌+◌, ◌≤◌, ◌⊎◌, true, ◌||◌, ◌++◌, ltb, List,
}
use artdaq.Prelude.Int.{ℤ, pos, eqb_ℤ}
use artdaq.Map.{Assoc, lookup, insert, contains}
use artdaq.Routing.Packet.{
  entry, RoutingPacket, Consecutive, destinations, RoutingManagerMode, RoutingPacketEntry,
  event_building, request_based_event_building, data_flow,
}
use artdaq.Routing.Tokens.{
  tokens_at, sort_from, sort_tokens, restore_unused_tokens, calculate_minimum, TokenState, count,
  too_few,
}
use artdaq.Routing.Turns.{turn, turns, total}
use artdaq.Routing.RoundRobin
use artdaq.Routing.NoOp
use artdaq.Routing.PreferSameHost
use artdaq.Routing.Policy.{Spends}
use artdaq.Routing.Manager.{
  entries_for, add_entry, trim_routing_cache, find_requested, get_current_table, new_route,
  route_for_event, route_for_data_flow, get_route_for_sequence_id, Manager,
}
use artdaq.Routing.Manager.Cache.{get_current_table_twice, routed, contains-get_current_table}
use artdaq.Routing.Manager.Receivers.{add_receiver_token, reset, add_receiver_token_lem}
use artdaq.Routing.Manager.Routes.{reset_keeps_routes}
use artdaq.Routing.Manager.Routes.Repeats.{
  call_all, asked, received, restarted, Call, route_repeats,
}
use artdaq.Routing.Manager.Routes.DataFlow.{get_route-Spends, data_flow_repeats}
use artdaq.Routing.NoOp.{no_op}
use artdaq.Routing.PreferSameHost.{
  host_of, with_host, is_on, matching_ranks, choose_from, choose, route_from, PreferSameHostPolicy,
}
use artdaq.Routing.PreferSameHost.Choice.{IsChosen, prefer_same_host_choice}
use artdaq.Routing.RoundRobin.Laws.{round_robin_table, round_robin_exhausts, tokens_held}
use artdaq.Routing.Turns.Fair.{turns-fair}

-- Ranks 1 and 2 have two tokens, and rank 3 has one.
abbrev five_tokens : TokenState
five_tokens = record {
  tokens = pos 1 ∷ pos 2 ∷ pos 1 ∷ pos 3 ∷ pos 2 ∷ [];
  tokens_used_since_last_update = 0;
  next_sequence_id = 10;
  receiver_ranks = (pos 1, tt) ∷ (pos 2, tt) ∷ (pos 3, tt) ∷ [];
}

abbrev two_at_least : RoundRobinPolicy
two_at_least = record { minimum_participants = pos 2; receivers_in_current_round = [] }

abbrev spread : Assoc ℤ ℕ
spread = (pos 1, 2) ∷ (pos 2, 2) ∷ (pos 3, 1) ∷ []

two_turns :
    (RoundRobin.create_routing_table two_at_least five_tokens []).2
    ≡ entry 10 (pos 1)
      ∷ entry 11 (pos 2)
      ∷ entry 12 (pos 3)
      ∷ entry 13 (pos 1)
      ∷ entry 14 (pos 2)
      ∷ []
unfolding RoundRobin.create_routing_table sort_tokens sort_from tokens_at lookup insert turns turn
    total calculate_minimum
two_turns = refl

sort-restore_example : sort_tokens (restore_unused_tokens spread) ≡ spread
sort-restore_example =
    sort-restore spread ((refl, (refl, tt)), ((refl, tt), (tt, tt))) (omega arith)

turns-fair_example :
    count
      (pos 3)
      (destinations (turns 9 (pos 3) 10 ((pos 1, 2) ∷ (pos 2, 3) ∷ (pos 3, 1) ∷ [])).added)
    ≤ count
        (pos 2)
        (destinations (turns 9 (pos 3) 10 ((pos 1, 2) ∷ (pos 2, 3) ∷ (pos 3, 1) ∷ [])).added)
unfolding turns turn tokens_at lookup
turns-fair_example =
    turns-fair 9 (pos 3) 10 ((pos 1, 2) ∷ (pos 2, 3) ∷ (pos 3, 1) ∷ []) (pos 2) (pos 3)
      ((refl, (refl, tt)), ((refl, tt), (tt, tt))) (omega arith) (omega arith)

round_robin_exhausts_example :
    too_few
      (sort_tokens (RoundRobin.create_routing_table two_at_least five_tokens []).1.tokens)
      (calculate_minimum (pos 2) 3)
    ≡ true
round_robin_exhausts_example = round_robin_exhausts two_at_least five_tokens [] (omega arith)

round_robin_table_example :
    (added : RoutingPacket) × ((RoundRobin.create_routing_table two_at_least five_tokens []).2
      ≡ [] ++ added)
    × Consecutive 10 added
        (RoundRobin.create_routing_table two_at_least five_tokens []).1.next_sequence_id
    × ((r : ℤ)
        → tokens_held two_at_least five_tokens r
          ≡ count r (destinations added)
            + tokens_held
                (RoundRobin.create_routing_table two_at_least five_tokens []).0
                (RoundRobin.create_routing_table two_at_least five_tokens []).1
                r)
round_robin_table_example = round_robin_table two_at_least five_tokens []

abbrev two_hosts : PreferSameHostPolicy
two_hosts = record {
  minimum_participants = pos 0;
  host_map = (pos 1, "east") ∷ (pos 3, "west") ∷ (pos 4, "west") ∷ [];
}

prefer_same_host_choice_example :
    (rank : ℤ) × ((PreferSameHost.create_route_for_sequence_id 0 two_hosts five_tokens 7 (pos 4)).2
      ≡ entry 7 rank)
    × IsChosen
        (with_host (pos 4) two_hosts.host_map)
        (host_of (pos 4) two_hosts.host_map)
        (λ q. count q five_tokens.tokens)
        rank
prefer_same_host_choice_example =
    prefer_same_host_choice 0 two_hosts five_tokens 7 (pos 4) (λ e. cc)

same_host :
    (PreferSameHost.create_route_for_sequence_id 0 two_hosts five_tokens 7 (pos 4)).2
    ≡ entry 7 (pos 3)
unfolding PreferSameHost.create_route_for_sequence_id sort_tokens sort_from tokens_at lookup insert
    contains route_from with_host host_of choose matching_ranks is_on choose_from
same_host = refl

-- A manager that routes by NoOp.
abbrev manager_in : RoutingManagerMode → Manager (Unit {0})
manager_in mode = record {
  own = tt;
  shared = five_tokens;
  routing_mode = mode;
  routing_cache = [];
  routing_cache_max_size = 4;
  max_token_count = 5;
}

abbrev routed_once : RoutingManagerMode → Manager (Unit {0}) × RoutingPacketEntry
routed_once mode = get_route_for_sequence_id no_op 0 (manager_in mode) 7 (pos 4)

add_receiver_token_lem_example :
    ((q : ℤ)
      → count q (add_receiver_token (λ k. k) (manager_in event_building) (pos 9) 3).shared.tokens
        ≡ (if eqb_ℤ (pos 9) q then 3 else 0) + count q five_tokens.tokens)
    × ((q : ℤ)
        → contains q
            (add_receiver_token
              (λ k. k)
              (manager_in event_building)
              (pos 9)
              3).shared.receiver_ranks
          ≡ (eqb_ℤ (pos 9) q || contains q five_tokens.receiver_ranks))
    × ((add_receiver_token (λ k. k) (manager_in event_building) (pos 9) 3).max_token_count ≡ (
        if ltb 5
          (length (add_receiver_token (λ k. k) (manager_in event_building) (pos 9) 3).shared.tokens)
        then length
            (add_receiver_token (λ k. k) (manager_in event_building) (pos 9) 3).shared.tokens
        else 5))
    × (length (add_receiver_token (λ k. k) (manager_in event_building) (pos 9) 3).shared.tokens
        ≡ 3 + length five_tokens.tokens)
add_receiver_token_lem_example =
    add_receiver_token_lem (λ k. k) (manager_in event_building) (pos 9) 3

-- Another rank asks for another sequence ID, tokens come, and the policy is reset.
abbrev in_between : List Call
in_between = asked 8 (pos 5) ∷ received (λ k. k) (pos 2) 3 ∷ restarted ∷ []

route_repeats_example :
    get_route_for_sequence_id no_op 0
      (call_all no_op 0 (routed_once request_based_event_building).0 in_between)
      7
      (pos 5)
    ≡ (
      call_all no_op 0 (routed_once request_based_event_building).0 in_between,
      (routed_once request_based_event_building).1,
    )
unfolding get_route_for_sequence_id route_for_event new_route contains
    NoOp.create_route_for_sequence_id
route_repeats_example =
    route_repeats no_op 0 (manager_in request_based_event_building) 7 (pos 4) (pos 5) in_between
      refl refl

reset_keeps_routes_example :
    get_route_for_sequence_id no_op 0 (reset (routed_once request_based_event_building).0) 7 (pos 5)
    ≡ (
      reset (routed_once request_based_event_building).0,
      (get_route_for_sequence_id no_op 0 (routed_once request_based_event_building).0 7 (pos 5)).1,
    )
unfolding get_route_for_sequence_id route_for_event new_route contains
    NoOp.create_route_for_sequence_id add_entry entries_for lookup insert
reset_keeps_routes_example =
    reset_keeps_routes no_op 0 (routed_once request_based_event_building).0 7 (pos 5) refl refl

get_route-Spends_example :
    let result = routed_once data_flow in
    (result.0 ≡ manager_in data_flow)
    ⊎ Spends 0 7
        (no_op.held_tokens tt five_tokens)
        (no_op.held_tokens result.0.own result.0.shared)
        result.1
get_route-Spends_example = get_route-Spends no_op 0 (manager_in data_flow) 7 (pos 4)

data_flow_repeats_example :
    get_route_for_sequence_id no_op 0 (routed_once data_flow).0 7 (pos 4) ≡ routed_once data_flow
unfolding get_route_for_sequence_id route_for_data_flow new_route contains find_requested
    NoOp.create_route_for_sequence_id add_entry entries_for lookup insert trim_routing_cache
data_flow_repeats_example =
    data_flow_repeats no_op 0 (manager_in data_flow) 7 (pos 4) refl tt refl refl

get_current_table_twice_example :
    (get_current_table no_op
      (pos 0)
      (get_current_table no_op (pos 0) (routed_once request_based_event_building).0).0).1
    ≡ []
unfolding get_route_for_sequence_id route_for_event new_route contains
    NoOp.create_route_for_sequence_id
get_current_table_twice_example =
    get_current_table_twice no_op (pos 0) (routed_once request_based_event_building).0 refl

contains-get_current_table_example :
    let result = get_current_table no_op (pos 0) (manager_in event_building) in
    contains 12 result.0.routing_cache
    ≡ (routed 12 result.1 || contains 12 (manager_in event_building).routing_cache)
contains-get_current_table_example =
    contains-get_current_table no_op (pos 0) (manager_in event_building) 12 refl
