-- ===== src/Routing/NoOp.antt =====
-- artdaq/RoutingPolicies/NoOp_policy.cc: tokens are used in the order in which they came.
use artdaq.Prelude.{ℕ, ◌+◌, ◌≡◌, refl, ap, inl, inr, List, [], ◌∷◌, ◌++◌, arith}
use artdaq.Prelude.Int.{ℤ}
use artdaq.Prelude.Words.{u64}
use artdaq.Routing.Packet.{
  RoutingPacket, entry, default_entry, Consecutive, destinations, RoutingPacketEntry,
}
use artdaq.Routing.Tokens.{count, TokenState}
use artdaq.Routing.Policy.{Spends, RoutingPolicy}

-- The `while` loop of `CreateRoutingTable`: the rows, the next sequence ID and the tokens used.
unfoldable pub drain : ℕ → ℕ → List ℤ → RoutingPacket × ℕ × ℕ
drain next used [] = ([], next, used)
drain next used (t ∷ tokens) =
    let (rows, next', used') = drain (u64 (next + 1)) (u64 (used + 1)) tokens in
    (entry next t ∷ rows, next', used')

-- `CreateRoutingTable`; the policy has no members of its own.
unfoldable pub create_routing_table :
    Unit {0} → TokenState → RoutingPacket → Unit {0} × TokenState × RoutingPacket
create_routing_table o s table =
    let (rows, next, used) = drain s.next_sequence_id s.tokens_used_since_last_update s.tokens in
    (
      o,
      record s { tokens = []; next_sequence_id = next; tokens_used_since_last_update = used },
      table ++ rows,
    )

-- `CreateRouteForSequenceID`: the first token, if there is one.
unfoldable pub create_route_for_sequence_id :
    ℕ → Unit {0} → TokenState → ℕ → ℤ → Unit {0} × TokenState × RoutingPacketEntry
create_route_for_sequence_id invalid_sequence_id o s seq requesting_rank = elim s.tokens [
  | [] ↦ (o, s, default_entry invalid_sequence_id)
  | dest ∷ rest ↦ (
    o,
    record s {
      tokens = rest;
      tokens_used_since_last_update = u64 (s.tokens_used_since_last_update + 1);
    },
    entry seq dest,
  )
]

abbrev held_tokens : Unit {0} → TokenState → ℤ → ℕ
held_tokens o s r = count r s.tokens

drain-Consecutive :
    (next used : ℕ) (tokens : List ℤ)
    → Consecutive next (drain next used tokens).0 (drain next used tokens).1
unfolding drain
drain-Consecutive next used [] = refl
drain-Consecutive next used (t ∷ tokens) =
    (refl, drain-Consecutive (u64 (next + 1)) (u64 (used + 1)) tokens)

drain-destinations :
    (next used : ℕ) (tokens : List ℤ) → destinations (drain next used tokens).0 ≡ tokens
unfolding drain
drain-destinations next used [] = refl
drain-destinations next used (t ∷ tokens) =
    ap (◌∷◌ t) (drain-destinations (u64 (next + 1)) (u64 (used + 1)) tokens)

-- `CreateRoutingTable` routes to the receivers in the order of their tokens, by consecutive
-- sequence IDs, and uses up every token.
pub no_op_order :
    (o : Unit {0}) (s : TokenState) (table : RoutingPacket)
    → (added : RoutingPacket) × ((create_routing_table o s table).2 ≡ table ++ added)
      × Consecutive s.next_sequence_id added (create_routing_table o s table).1.next_sequence_id
      × (destinations added ≡ s.tokens)
      × ((create_routing_table o s table).1.tokens ≡ [])
unfolding create_routing_table
no_op_order o s table = (
  (drain s.next_sequence_id s.tokens_used_since_last_update s.tokens).0,
  refl,
  drain-Consecutive s.next_sequence_id s.tokens_used_since_last_update s.tokens,
  drain-destinations s.next_sequence_id s.tokens_used_since_last_update s.tokens,
  refl,
)

pub no_op_table :
    (o : Unit {0}) (s : TokenState) (out : RoutingPacket)
    → (added : RoutingPacket) × ((create_routing_table o s out).2 ≡ out ++ added)
      × Consecutive s.next_sequence_id added (create_routing_table o s out).1.next_sequence_id
      × ((r : ℤ)
          → held_tokens o s r
            ≡ count r (destinations added)
              + held_tokens (create_routing_table o s out).0 (create_routing_table o s out).1 r)
no_op_table o s out =
    let (added, appended, consecutive, order, emptied) = no_op_order o s out in
    (added, appended, consecutive, λ r. rw (order, emptied) (unfold count in omega arith))

pub no_op_route :
    (invalid_sequence_id : ℕ) (o : Unit {0}) (s : TokenState) (seq : ℕ) (requesting_rank : ℤ)
    → let result = create_route_for_sequence_id invalid_sequence_id o s seq requesting_rank in
      Spends invalid_sequence_id seq (held_tokens o s) (held_tokens result.0 result.1) result.2
unfolding create_route_for_sequence_id
no_op_route invalid_sequence_id o s seq requesting_rank = go s.tokens refl
  where
    go :
        (tokens : List ℤ)
        → s.tokens ≡ tokens
        → let result = create_route_for_sequence_id invalid_sequence_id o s seq requesting_rank in
          Spends invalid_sequence_id seq (held_tokens o s) (held_tokens result.0 result.1) result.2
    go [] e = rw (e, create_route_for_sequence_id) (inl (refl, λ r. unfold count in ground arith))
    go (k ∷ rest) e =
        rw (e, create_route_for_sequence_id) (inr (k, refl, λ r. unfold count in omega arith))

abbrev pub no_op : RoutingPolicy
no_op = record {
  Own = Unit {0};
  create_routing_table = create_routing_table;
  create_route_for_sequence_id = create_route_for_sequence_id;
  held_tokens = held_tokens;
  table_appends = no_op_table;
  route_spends = no_op_route;
}
