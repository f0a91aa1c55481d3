-- ===== src/Routing/RoundRobin/Laws.antt =====
-- Tokens and sequence IDs under RoundRobin_policy.cc.
use artdaq.Prelude.Ord.{int_ord}
use artdaq.Routing.Packet.{RoutingPacket, Consecutive, destinations}
use artdaq.Routing.Tokens.{
  count, get_receiver_count, sort_tokens, calculate_minimum, restore-sort, sort_tokens-IsPositive,
  TokenState, restore_unused_tokens, too_few, IsPositive, to_u64-calculate_minimum,
  sort_tokens-IsSorted,
}
use artdaq.Routing.Restore.{sort-restore}
use artdaq.Routing.Turns.{
  turns, turns-held, turns-Consecutive, total, held-cons, turns-ends, turns-IsSorted,
  turns-IsPositive,
}
use artdaq.Routing.RoundRobin.{
  RoundRobinPolicy, create_routing_table, to_set, spend_each, start_round, next_round,
  create_route_for_sequence_id,
}
use artdaq.Prelude.{
  ℕ, suc, ◌+◌, ◌≡◌, refl, sym, ◌∙◌, ◌++◌, arith, ◌-◌, ◌^◌, ◌<◌, true, [], ◌∷◌, Bool-cases, inl, inr,
}
use artdaq.Prelude.Int.{ℤ, pos_part}
use artdaq.Map.{keys, Assoc, KeySet}
use artdaq.Routing.Policy.{Spends, RoutingPolicy}

-- The tokens of a rank: those in the list, and the one set aside for it in the current round.
abbrev pub tokens_held : RoundRobinPolicy → TokenState → ℤ → ℕ
tokens_held o s r = count r (keys o.receivers_in_current_round) + count r s.tokens

-- The rows that `CreateRoutingTable` adds.
abbrev pub added_rows : RoundRobinPolicy → TokenState → RoutingPacket
added_rows o s =
    let table = sort_tokens s.tokens in
    (turns (suc (total table)) (calculate_minimum o.minimum_participants (get_receiver_count s))
      s.next_sequence_id table).added

create_routing_table-tokens :
    (o : RoundRobinPolicy) (s : TokenState) (output : RoutingPacket) (r : ℤ)
    → count r s.tokens
      ≡ count r (destinations (added_rows o s)) + count r (create_routing_table o s output).1.tokens
unfolding create_routing_table
create_routing_table-tokens o s output r =
    sym (restore-sort r s.tokens)
    ∙ turns-held r (suc (total (sort_tokens s.tokens)))
        (calculate_minimum o.minimum_participants (get_receiver_count s)) s.next_sequence_id
        (sort_tokens s.tokens) (sort_tokens-IsPositive s.tokens)

-- `CreateRoutingTable` only adds rows; they carry the next sequence IDs in order, and each takes one
-- token of its receiver.
pub round_robin_table :
    (o : RoundRobinPolicy) (s : TokenState) (output : RoutingPacket)
    → (added : RoutingPacket) × ((create_routing_table o s output).2 ≡ output ++ added)
      × Consecutive s.next_sequence_id added (create_routing_table o s output).1.next_sequence_id
      × ((r : ℤ)
          → tokens_held o s r
            ≡ count r (destinations added)
              + tokens_held
                  (create_routing_table o s output).0
                  (create_routing_table o s output).1
                  r)
round_robin_table o s output = (
  added_rows o s,
  unfold create_routing_table in refl,
  unfold create_routing_table in
      turns-Consecutive (suc (total (sort_tokens s.tokens)))
        (calculate_minimum o.minimum_participants (get_receiver_count s)) s.next_sequence_id
        (sort_tokens s.tokens),
  λ r.
      let h = create_routing_table-tokens o s output r in
      unfold create_routing_table in omega (arith, h),
)

-- After `CreateRoutingTable` too few receivers have tokens for another turn.
pub round_robin_exhausts :
    (o : RoundRobinPolicy) (s : TokenState) (output : RoutingPacket)
    → pos_part o.minimum_participants < 2 ^ 31
    → too_few
        (sort_tokens (create_routing_table o s output).1.tokens)
        (calculate_minimum o.minimum_participants (get_receiver_count s))
      ≡ true
unfolding create_routing_table
round_robin_exhausts o s output h =
    let table = sort_tokens s.tokens in
    let fuel = suc (total table) in
    let minimum = calculate_minimum o.minimum_participants (get_receiver_count s) in
    rw
      (sort-restore (turns fuel minimum s.next_sequence_id table).left
        (turns-IsSorted fuel minimum s.next_sequence_id table (sort_tokens-IsSorted s.tokens))
        (turns-IsPositive fuel minimum s.next_sequence_id table (sort_tokens-IsPositive s.tokens)))
      (turns-ends fuel minimum s.next_sequence_id table
        (to_u64-calculate_minimum o.minimum_participants (get_receiver_count s) h)
        (sort_tokens-IsPositive s.tokens) (omega arith))

round-tokens :
    (r : ℤ) (table : Assoc ℤ ℕ)
    → IsPositive table
    → count r (restore_unused_tokens table)
      ≡ count r (keys (to_set table)) + count r (restore_unused_tokens (spend_each table))
unfolding count
round-tokens r [] p = unfold restore_unused_tokens count in refl
round-tokens r ((k, n) ∷ table) p = ground (
  arith,
  held-cons r k n table,
  held-cons r k (n - 1) (spend_each table),
  round-tokens r table p.1,
)

start_round-Spends :
    (invalid_sequence_id : ℕ) (o : RoundRobinPolicy) (s : TokenState) (seq : ℕ) (table : Assoc ℤ ℕ)
    → o.receivers_in_current_round ≡ []
    → IsPositive table
    → ((r : ℤ) → count r s.tokens ≡ count r (restore_unused_tokens table))
    → let result = start_round invalid_sequence_id o s seq table in
      Spends invalid_sequence_id seq (tokens_held o s) (tokens_held result.0 result.1) result.2
unfolding start_round
start_round-Spends invalid_sequence_id o s seq [] e p h =
    inl (refl, λ r. unfold restore_unused_tokens count in ground (arith, h r))
start_round-Spends invalid_sequence_id o s seq ((k, n) ∷ table) e p h =
    inr (k, refl, λ r. unfold count in ground (arith, h r, round-tokens r ((k, n) ∷ table) p))

next_round-Spends :
    (invalid_sequence_id : ℕ) (o : RoundRobinPolicy) (s : TokenState) (seq : ℕ)
    → o.receivers_in_current_round ≡ []
    → let result = next_round invalid_sequence_id o s seq in
      Spends invalid_sequence_id seq (tokens_held o s) (tokens_held result.0 result.1) result.2
unfolding next_round
next_round-Spends invalid_sequence_id o s seq e =
    let table = sort_tokens s.tokens in
    let minimum = calculate_minimum o.minimum_participants (get_receiver_count s) in
    elim (Bool-cases (too_few table minimum)) [
      | inl few ↦ rw few (inl (refl, λ r. omega (arith, restore-sort r s.tokens)))
      | inr enough ↦ rw enough (
          start_round-Spends invalid_sequence_id o s seq table e (sort_tokens-IsPositive s.tokens)
            (λ r. sym (restore-sort r s.tokens)))
    ]

route-eq-next_round :
    (invalid_sequence_id : ℕ) (o : RoundRobinPolicy) (s : TokenState) (seq : ℕ)
    (requesting_rank : ℤ)
    → o.receivers_in_current_round ≡ []
    → create_route_for_sequence_id invalid_sequence_id o s seq requesting_rank
      ≡ next_round invalid_sequence_id o s seq
unfolding create_route_for_sequence_id
route-eq-next_round invalid_sequence_id o s seq requesting_rank e = ground arith

-- `CreateRouteForSequenceID` takes one token of the receiver that it names, from the round or the
-- list, or it names none and takes none.
pub round_robin_route :
    (invalid_sequence_id : ℕ) (o : RoundRobinPolicy) (s : TokenState) (seq : ℕ)
    (requesting_rank : ℤ)
    → let result = create_route_for_sequence_id invalid_sequence_id o s seq requesting_rank in
      Spends invalid_sequence_id seq (tokens_held o s) (tokens_held result.0 result.1) result.2
round_robin_route invalid_sequence_id o s seq requesting_rank = go o.receivers_in_current_round refl
  where
    go :
        (round : KeySet ℤ)
        → o.receivers_in_current_round ≡ round
        → let result = create_route_for_sequence_id invalid_sequence_id o s seq requesting_rank in
          Spends invalid_sequence_id seq (tokens_held o s) (tokens_held result.0 result.1) result.2
    go [] e =
        rw (route-eq-next_round invalid_sequence_id o s seq requesting_rank e)
          (next_round-Spends invalid_sequence_id o s seq e)
    go (k ∷ rest) e =
        unfold create_route_for_sequence_id in
        rw (e, create_route_for_sequence_id) (inr (k.0, refl, λ r. unfold count in omega arith))

abbrev pub round_robin : RoutingPolicy
round_robin = record {
  Own = RoundRobinPolicy;
  create_routing_table = create_routing_table;
  create_route_for_sequence_id = create_route_for_sequence_id;
  held_tokens = tokens_held;
  table_appends = round_robin_table;
  route_spends = round_robin_route;
}
