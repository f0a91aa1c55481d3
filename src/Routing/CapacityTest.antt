-- ===== src/Routing/CapacityTest.antt =====
-- artdaq/RoutingPolicies/CapacityTest_policy.cc: the first receiver is loaded first.
pub mod Laws
use artdaq.Prelude.{
  leb, if◌then◌else◌, length, ℕ, zero, suc, ◌+◌, ◌-◌, ◌*◌, ◌/◌, Bool, true, false, [], ◌∷◌, ◌++◌,
}
use artdaq.Prelude.Int.{ℤ}
use artdaq.Prelude.Words.{u64, to_u64}
use artdaq.Map.{Assoc}
use artdaq.Routing.Packet.{RoutingPacket, entry, default_entry, RoutingPacketEntry}
use artdaq.Routing.Tokens.{sort_tokens, restore_unused_tokens, TokenState}

-- What the loop over the tokens of one receiver leaves behind: the rows, the next sequence ID, the
-- tokens used, those of the receiver that are kept, and its `breakCondition`.
pub record RankFilled : Type 0 where
  pub rows : RoutingPacket
  pub next : ℕ
  pub used : ℕ
  pub kept : ℕ
  pub broke : Bool

-- The inner loop, on the tokens of one receiver. `to_use` is `tokensToUse`.
unfoldable pub fill_rank : ℕ → ℤ → ℕ → ℕ → ℕ → RankFilled
fill_rank to_use r zero next used = record {
  rows = [];
  next = next;
  used = used;
  kept = 0;
  broke = false;
}
fill_rank to_use r (suc n) next used =
    let used' = u64 (used + 1) in
    let rest = fill_rank to_use r n (u64 (next + 1)) used' in
    let more = record rest { rows = entry next r ∷ rest.rows } in
    if leb to_use used'
    then record {
      rows = entry next r ∷ [];
      next = u64 (next + 1);
      used = used';
      kept = n;
      broke = true;
    }
    else more

-- What the loop over the receivers leaves behind.
pub record Filled : Type 0 where
  pub added : RoutingPacket
  pub next : ℕ
  pub used : ℕ
  pub left : Assoc ℤ ℕ

-- The outer loop.
unfoldable pub fill : ℕ → ℕ → ℕ → Assoc ℤ ℕ → Filled
fill to_use next used [] = record { added = []; next = next; used = used; left = [] }
fill to_use next used ((r, n) ∷ table) =
    let one = fill_rank to_use r n next used in
    let rest = fill to_use one.next one.used table in
    let all = record rest { added = one.rows ++ rest.added; left = (r, one.kept) ∷ rest.left } in
    if one.broke
    then record { added = one.rows; next = one.next; used = one.used; left = (r, one.kept) ∷ table }
    else all

-- `ceil(tokenCount * tokenUsagePercent_ / 100.0)`: the product is a `size_t`, and below 2 ^ 52 the
-- division by 100.0 and `ceil` are exact.
unfoldable pub tokens_to_use : ℕ → ℤ → ℕ
tokens_to_use token_count percent = (u64 (token_count * to_u64 percent) + 99) / 100

-- `CreateRoutingTable`. The private member is `tokenUsagePercent_`.
unfoldable pub create_routing_table :
    ℤ → TokenState → RoutingPacket → ℤ × TokenState × RoutingPacket
create_routing_table percent s output =
    let done =
      fill (tokens_to_use (length s.tokens) percent) s.next_sequence_id
        s.tokens_used_since_last_update (sort_tokens s.tokens) in
    (
      percent,
      record s {
        tokens = restore_unused_tokens done.left;
        next_sequence_id = done.next;
        tokens_used_since_last_update = done.used;
      },
      output ++ done.added,
    )

-- `CreateRouteForSequenceID` past the test for no tokens, on the sorted tokens.
unfoldable pub route_first :
    ℕ → ℤ → TokenState → ℕ → Assoc ℤ ℕ → ℤ × TokenState × RoutingPacketEntry
route_first invalid_sequence_id percent s seq [] =
    (percent, record s { tokens = [] }, default_entry invalid_sequence_id)
route_first invalid_sequence_id percent s seq ((dest, n) ∷ table) = (
  percent,
  record s {
    tokens = restore_unused_tokens ((dest, n - 1) ∷ table);
    tokens_used_since_last_update = u64 (s.tokens_used_since_last_update + 1);
  },
  entry seq dest,
)

-- `CreateRouteForSequenceID`: a token of the first receiver that has one.
unfoldable pub create_route_for_sequence_id :
    ℕ → ℤ → TokenState → ℕ → ℤ → ℤ × TokenState × RoutingPacketEntry
create_route_for_sequence_id invalid_sequence_id percent s seq requesting_rank =
    route_first invalid_sequence_id percent s seq (sort_tokens s.tokens)
