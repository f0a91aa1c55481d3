-- ===== src/Routing/Manager.antt =====
-- artdaq/RoutingPolicies/RoutingManagerPolicy.cc and .hh: the tokens, the cache of routes, and the
-- calls that a RoutingManager makes, over any policy. The mutexes make each call one step.
pub mod Receivers
pub mod Cache
pub mod Routes
use artdaq.Prelude.Ord.{nat_ord, int_ord}
use artdaq.Routing.Policy.{RoutingPolicy}
use artdaq.Prelude.{
  ltb, ◌==◌, if◌then◌else◌, length, ℕ, Bool, true, false, Option, none, some, List, [], ◌∷◌, ◌++◌,
}
use artdaq.Prelude.Int.{eqb_ℤ, ℤ}
use artdaq.Map.{Assoc, lookup, contains, insert}
use artdaq.Routing.Packet.{
  RoutingPacket, entry, default_entry, RoutingManagerMode, RoutingPacketEntry, event_building,
  request_based_event_building, data_flow,
}
use artdaq.Routing.Tokens.{TokenState}

pub record RoutingCacheEntry : Type 0 where
  pub is_valid : Bool
  pub destination_rank : ℤ
  pub sequence_id : ℕ
  pub requesting_rank : ℤ
  pub included_in_table : Bool

-- `RoutingCacheEntry(seq, dest, source)`
abbrev pub cache_entry : ℕ → ℤ → ℤ → RoutingCacheEntry
cache_entry seq dest source = record {
  is_valid = true;
  destination_rank = dest;
  sequence_id = seq;
  requesting_rank = source;
  included_in_table = false;
}

abbrev pub RoutingCache : Type 0
RoutingCache = Assoc ℕ (List RoutingCacheEntry)

-- `routing_cache_[seq]`, which is empty for a sequence ID with no entry.
unfoldable pub entries_for : ℕ → RoutingCache → List RoutingCacheEntry
entries_for seq cache = elim (lookup seq cache) [ none ↦ [] | some es ↦ es ]

-- `routing_cache_[seq].emplace_back(…)`
unfoldable pub add_entry : ℕ → RoutingCacheEntry → RoutingCache → RoutingCache
add_entry seq e cache = insert seq (entries_for seq cache ++ e ∷ []) cache

-- `TrimRoutingCache`: the least sequence IDs go first.
unfoldable pub trim_routing_cache : ℕ → RoutingCache → RoutingCache
trim_routing_cache max_size [] = []
trim_routing_cache max_size (e ∷ cache) =
    let trimmed = trim_routing_cache max_size cache in
    if ltb max_size (length (e ∷ cache)) then trimmed else e ∷ cache

-- `UpdateCache`, for the process of rank `my_rank`.
unfoldable pub update_cache : ℤ → RoutingPacket → RoutingCache → RoutingCache
update_cache my_rank [] cache = cache
update_cache my_rank (e ∷ table) cache = update_cache my_rank table (
    if contains e.sequence_id cache
    then cache
    else add_entry e.sequence_id (cache_entry e.sequence_id e.destination_rank my_rank) cache)

-- The loop of `CreateRoutingTableFromCache`: the rows, and the cache with the first entry of each
-- sequence ID marked. No sequence ID of the cache is without an entry.
unfoldable pub rows_from_cache : RoutingCache → RoutingPacket × RoutingCache
rows_from_cache [] = ([], [])
rows_from_cache ((seq, []) ∷ cache) =
    let (rows, marked) = rows_from_cache cache in (rows, (seq, []) ∷ marked)
rows_from_cache ((seq, e ∷ es) ∷ cache) =
    let (rows, marked) = rows_from_cache cache in
    if e.included_in_table then (rows, (seq, e ∷ es) ∷ marked) else (
      entry e.sequence_id e.destination_rank ∷ rows,
      (seq, record e { included_in_table = true } ∷ es) ∷ marked,
    )

-- The members, for a policy's own members `Own`.
pub record Manager (Own : Type 0) : Type 0 where
  pub own : Own
  pub shared : TokenState
  pub routing_mode : RoutingManagerMode
  pub routing_cache : RoutingCache
  pub routing_cache_max_size : ℕ
  pub max_token_count : ℕ

-- `CreateRoutingTableFromCache`
unfoldable pub create_routing_table_from_cache :
    {Own : Type 0} → Manager Own → RoutingPacket → Manager Own × RoutingPacket
create_routing_table_from_cache m table = elim m.routing_mode [
  | request_based_event_building ↦
      let (rows, marked) = rows_from_cache m.routing_cache in
      (
        record m { routing_cache = trim_routing_cache m.routing_cache_max_size marked },
        table ++ rows,
      )
  | _ ↦ (m, table)
]

-- The route of the first cached entry that the rank requested.
unfoldable pub find_requested : ℤ → List RoutingCacheEntry → Option RoutingCacheEntry
find_requested requesting_rank [] = none
find_requested requesting_rank (e ∷ es) =
    if eqb_ℤ e.requesting_rank requesting_rank then some e else find_requested requesting_rank es

abbrev pub is_data_flow : RoutingManagerMode → Bool
is_data_flow data_flow = true
is_data_flow _ = false

module _ (p : RoutingPolicy) (my_rank : ℤ) where
  -- `GetCurrentTable`
  unfoldable pub get_current_table : Manager p.Own → Manager p.Own × RoutingPacket
  get_current_table m = elim m.routing_mode [
    | event_building ↦
        let (own, shared, table) = p.create_routing_table m.own m.shared [] in
        create_routing_table_from_cache
          (record m {
            own = own;
            shared = shared;
            routing_cache = update_cache my_rank table m.routing_cache;
          })
          table
    | request_based_event_building ↦ create_routing_table_from_cache m []
    | _ ↦ (m, [])
  ]

module _ (p : RoutingPolicy) (invalid_sequence_id : ℕ) where
  -- A new route from the policy, which is cached if there is one.
  unfoldable pub new_route : Manager p.Own → ℕ → ℤ → Manager p.Own × RoutingPacketEntry
  new_route m seq requesting_rank =
      let (own, shared, e) =
        p.create_route_for_sequence_id invalid_sequence_id m.own m.shared seq requesting_rank in
      let cache =
        if e.sequence_id == seq
        then add_entry seq (cache_entry seq e.destination_rank requesting_rank) m.routing_cache
        else m.routing_cache in
      (record m { own = own; shared = shared; routing_cache = cache }, e)

  -- The branch of `GetRouteForSequenceID` for the modes other than DataFlow.
  unfoldable pub route_for_event : Manager p.Own → ℕ → ℤ → Manager p.Own × RoutingPacketEntry
  route_for_event m seq requesting_rank =
      if contains seq m.routing_cache
      then elim (entries_for seq m.routing_cache) [
        | [] ↦ (m, default_entry invalid_sequence_id)
        | e ∷ es ↦ (m, entry seq e.destination_rank)
      ]
      else new_route m seq requesting_rank

  -- The branch for DataFlow.
  unfoldable pub route_for_data_flow : Manager p.Own → ℕ → ℤ → Manager p.Own × RoutingPacketEntry
  route_for_data_flow m seq requesting_rank =
      elim (find_requested requesting_rank (entries_for seq m.routing_cache)) [
        | some e ↦ (m, entry seq e.destination_rank)
        | none ↦
            let (m', e) = new_route m seq requesting_rank in
            (
              record m' {
                routing_cache = trim_routing_cache m'.routing_cache_max_size m'.routing_cache;
              },
              e,
            )
      ]

  -- `GetRouteForSequenceID`
  unfoldable pub get_route_for_sequence_id :
      Manager p.Own → ℕ → ℤ → Manager p.Own × RoutingPacketEntry
  get_route_for_sequence_id m seq requesting_rank =
      if is_data_flow m.routing_mode
      then route_for_data_flow m seq requesting_rank
      else route_for_event m seq requesting_rank
