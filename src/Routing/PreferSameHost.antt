-- ===== src/Routing/PreferSameHost.antt =====
-- artdaq/RoutingPolicies/PreferSameHost_policy.cc: a route to the host of the requester, if it can be.
pub mod Laws
pub mod Choice
use Prim.Native.String.{String}
use text.Mathlib.Text.{◌==◌ as str_eq}
use artdaq.Prelude.Ord.{int_ord}
use artdaq.Routing.Turns.{turns, total}
use artdaq.Prelude.{ltb, ◌==◌, if◌then◌else◌, ℕ, suc, ◌-◌, Bool, false, none, some, [], ◌∷◌, ◌++◌}
use artdaq.Prelude.Int.{ℤ, negsuc}
use artdaq.Map.{Assoc, lookup, contains, insert, KeySet}
use artdaq.Routing.Packet.{RoutingPacket, entry, default_entry, RoutingPacketEntry}
use artdaq.Routing.Tokens.{
  get_receiver_count, tokens_at, sort_tokens, restore_unused_tokens, calculate_minimum, TokenState,
}

-- The private members.
pub record PreferSameHostPolicy : Type 0 where
  pub minimum_participants : ℤ
  pub host_map : Assoc ℤ String

-- `CreateRoutingTable`: the same full turns as in RoundRobin_policy.cc.
unfoldable pub create_routing_table :
    PreferSameHostPolicy
    → TokenState
    → RoutingPacket
    → PreferSameHostPolicy × TokenState × RoutingPacket
create_routing_table o s output =
    let table = sort_tokens s.tokens in
    let minimum = calculate_minimum o.minimum_participants (get_receiver_count s) in
    let done = turns (suc (total table)) minimum s.next_sequence_id table in
    (
      o,
      record s { tokens = restore_unused_tokens done.left; next_sequence_id = done.next },
      output ++ done.added,
    )

-- `host_map_[rank]`, which makes an entry with an empty name for a rank that has none.
unfoldable pub host_of : ℤ → Assoc ℤ String → String
host_of rank hosts = elim (lookup rank hosts) [ none ↦ "" | some host ↦ host ]

unfoldable pub with_host : ℤ → Assoc ℤ String → Assoc ℤ String
with_host rank hosts = if contains rank hosts then hosts else insert rank "" hosts

-- `host_map_.count(rank) != 0 && host_map_[rank] == host`
unfoldable pub is_on : Assoc ℤ String → String → ℤ → Bool
is_on hosts host rank = elim (lookup rank hosts) [ none ↦ false | some h ↦ str_eq h host ]

-- The loop over the table fills `matching_ranks_` and finds the rank with the most tokens. These are
-- its two results, each by itself: the set,
unfoldable pub matching_ranks : Assoc ℤ String → String → Assoc ℤ ℕ → KeySet ℤ
matching_ranks hosts host [] = []
matching_ranks hosts host ((r, n) ∷ table) =
    let rest = matching_ranks hosts host table in
    if n == 0 then rest else if is_on hosts host r then insert r tt rest else rest

-- and the rank with the most tokens, the first of those with as many, from a rank and a number.
unfoldable pub max_rank_from : ℤ → ℕ → Assoc ℤ ℕ → ℤ
max_rank_from max_rank max_rank_tokens [] = max_rank
max_rank_from max_rank max_rank_tokens ((r, n) ∷ table) =
    max_rank_from (if ltb max_rank_tokens n then r else max_rank)
      (if ltb max_rank_tokens n then n else max_rank_tokens) table

-- The ranks of a set with their tokens in the table.
unfoldable pub tokens_of : Assoc ℤ ℕ → KeySet ℤ → Assoc ℤ ℕ
tokens_of table [] = []
tokens_of table ((r, u) ∷ ranks) = (r, tokens_at r table) ∷ tokens_of table ranks

-- The three branches on the number of matching ranks.
unfoldable pub choose_from : Assoc ℤ ℕ → KeySet ℤ → ℤ
choose_from table [] = max_rank_from (negsuc 0) 0 table
choose_from table ((r, u) ∷ []) = r
choose_from table ((r, u) ∷ q ∷ ranks) =
    max_rank_from (negsuc 0) 0 (tokens_of table ((r, u) ∷ q ∷ ranks))

unfoldable pub choose : Assoc ℤ String → String → Assoc ℤ ℕ → ℤ
choose hosts host table = choose_from table (matching_ranks hosts host table)

-- `CreateRouteForSequenceID` past the test for no tokens, on the sorted tokens.
unfoldable pub route_from :
    ℕ
    → PreferSameHostPolicy
    → TokenState
    → ℕ
    → ℤ
    → Assoc ℤ ℕ
    → PreferSameHostPolicy × TokenState × RoutingPacketEntry
route_from invalid_sequence_id o s seq requesting_rank [] =
    (o, record s { tokens = [] }, default_entry invalid_sequence_id)
route_from invalid_sequence_id o s seq requesting_rank (p ∷ rest) =
    let table = p ∷ rest in
    let hosts = with_host requesting_rank o.host_map in
    let rank = choose hosts (host_of requesting_rank o.host_map) table in
    (
      record o { host_map = hosts },
      record s { tokens = restore_unused_tokens (insert rank (tokens_at rank table - 1) table) },
      entry seq rank,
    )

unfoldable pub create_route_for_sequence_id :
    ℕ
    → PreferSameHostPolicy
    → TokenState
    → ℕ
    → ℤ
    → PreferSameHostPolicy × TokenState × RoutingPacketEntry
create_route_for_sequence_id invalid_sequence_id o s seq requesting_rank =
    route_from invalid_sequence_id o s seq requesting_rank (sort_tokens s.tokens)
