-- ===== src/Routing/CapacityTest/Laws.antt =====
-- Tokens, sequence IDs and the quota under CapacityTest_policy.cc.
use Prim.Native.Nat.{min, max}
use artdaq.Prelude.Ord.{int_ord}
use artdaq.Routing.CapacityTest.{
  fill, fill_rank, tokens_to_use, create_routing_table, route_first, create_route_for_sequence_id,
}
use artdaq.Prelude.{
  leb, if◌then◌else◌, Bool-cases, length, length-append, ℕ, zero, suc, ◌+◌, ◌-◌, ◌^◌, ◌<◌, ◌≡◌,
  refl, sym, ◌∙◌, inl, inr, [], ◌∷◌, ◌++◌, arith,
}
use artdaq.Prelude.Int.{eqb_ℤ, ℤ}
use artdaq.Prelude.Words.{u64}
use artdaq.Map.{Assoc}
use artdaq.Routing.Packet.{RoutingPacket, Consecutive, Consecutive-append, destinations}
use artdaq.Routing.Tokens.{
  count, sort_tokens, restore-sort, IsPositive, TokenState, restore_unused_tokens,
  sort_tokens-IsPositive,
}
use artdaq.Routing.Turns.{held, held-cons, count-destinations-append, total, total-sort_tokens}
use artdaq.Routing.Policy.{Spends, RoutingPolicy}

fill_rank-count :
    (q : ℤ) (to_use : ℕ) (r : ℤ) (n next used : ℕ)
    → count q (destinations (fill_rank to_use r n next used).rows)
      ≡ (if eqb_ℤ r q then length (fill_rank to_use r n next used).rows else 0)
unfolding fill_rank count
fill_rank-count q to_use r zero next used = ground arith
fill_rank-count q to_use r (suc n) next used =
    ground (arith, fill_rank-count q to_use r n (u64 (next + 1)) (u64 (used + 1)))

fill_rank-kept :
    (to_use : ℕ) (r : ℤ) (n next used : ℕ)
    → length (fill_rank to_use r n next used).rows + (fill_rank to_use r n next used).kept ≡ n
unfolding fill_rank
fill_rank-kept to_use r zero next used = refl
fill_rank-kept to_use r (suc n) next used =
    ground (arith, fill_rank-kept to_use r n (u64 (next + 1)) (u64 (used + 1)))

fill_rank-Consecutive :
    (to_use : ℕ) (r : ℤ) (n next used : ℕ)
    → Consecutive next (fill_rank to_use r n next used).rows (fill_rank to_use r n next used).next
unfolding fill_rank
fill_rank-Consecutive to_use r zero next used = refl
fill_rank-Consecutive to_use r (suc n) next used = elim (Bool-cases (leb to_use (u64 (used + 1)))) [
  | inl full ↦ rw full (refl, refl)
  | inr more ↦ rw more (refl, fill_rank-Consecutive to_use r n (u64 (next + 1)) (u64 (used + 1)))
]

fill-held :
    (q : ℤ) (to_use next used : ℕ) (table : Assoc ℤ ℕ)
    → held q table
      ≡ count q (destinations (fill to_use next used table).added)
        + held q (fill to_use next used table).left
unfolding fill
fill-held q to_use next used [] = unfold count in omega arith
fill-held q to_use next used ((r, n) ∷ table) =
    let one = fill_rank to_use r n next used in
    let rest = fill to_use one.next one.used table in
    ground (
      arith,
      held-cons q r n table,
      held-cons q r one.kept table,
      held-cons q r one.kept rest.left,
      fill_rank-count q to_use r n next used,
      fill_rank-kept to_use r n next used,
      fill-held q to_use one.next one.used table,
      count-destinations-append q one.rows rest.added,
    )

fill-Consecutive :
    (to_use next used : ℕ) (table : Assoc ℤ ℕ)
    → Consecutive next (fill to_use next used table).added (fill to_use next used table).next
unfolding fill
fill-Consecutive to_use next used [] = refl
fill-Consecutive to_use next used ((r, n) ∷ table) =
    let one = fill_rank to_use r n next used in
    elim (Bool-cases one.broke) [
      | inl full ↦ rw full (fill_rank-Consecutive to_use r n next used)
      | inr more ↦ rw more (
          Consecutive-append next one.rows one.next _ _ (fill_rank-Consecutive to_use r n next used)
            (fill-Consecutive to_use one.next one.used table))
    ]

abbrev pub held_tokens : ℤ → TokenState → ℤ → ℕ
held_tokens percent s r = count r s.tokens

abbrev added_rows : ℤ → TokenState → RoutingPacket
added_rows percent s =
    (fill (tokens_to_use (length s.tokens) percent) s.next_sequence_id
      s.tokens_used_since_last_update (sort_tokens s.tokens)).added

pub capacity_test_table :
    (percent : ℤ) (s : TokenState) (output : RoutingPacket)
    → (added : RoutingPacket) × ((create_routing_table percent s output).2 ≡ output ++ added)
      × Consecutive s.next_sequence_id added
          (create_routing_table percent s output).1.next_sequence_id
      × ((r : ℤ)
          → held_tokens percent s r
            ≡ count r (destinations added)
              + held_tokens
                  (create_routing_table percent s output).0
                  (create_routing_table percent s output).1
                  r)
unfolding create_routing_table
capacity_test_table percent s output =
    let quota = tokens_to_use (length s.tokens) percent in
    let used = s.tokens_used_since_last_update in
    let table = sort_tokens s.tokens in
    (
      added_rows percent s,
      refl,
      fill-Consecutive quota s.next_sequence_id used table,
      λ r. sym (restore-sort r s.tokens) ∙ fill-held r quota s.next_sequence_id used table,
    )

-- The number of rows that a receiver with `n` tokens gets.
fill_rank-quota :
    (to_use : ℕ) (r : ℤ) (n next used : ℕ)
    → used + n < 2 ^ 64
    → let one = fill_rank to_use r n next used in
      (length one.rows ≡ min n (max 1 (to_use - used)))
      × (one.used ≡ used + length one.rows)
      × (one.broke ≡ leb (max 1 (to_use - used)) n)
unfolding fill_rank
fill_rank-quota to_use r zero next used h = ground arith
fill_rank-quota to_use r (suc n) next used h =
    ground (arith, fill_rank-quota to_use r n (u64 (next + 1)) (u64 (used + 1)))

fill-quota :
    (to_use next used : ℕ) (table : Assoc ℤ ℕ)
    → used + total table < 2 ^ 64
    → IsPositive table
    → let done = fill to_use next used table in
      (length done.added ≡ min (total table) (max 1 (to_use - used)))
      × (done.used ≡ used + length done.added)
unfolding fill total
fill-quota to_use next used [] h p = ground arith
fill-quota to_use next used ((r, n) ∷ table) h p =
    let one = fill_rank to_use r n next used in
    let rest = fill to_use one.next one.used table in
    ground (
      arith,
      fill_rank-quota to_use r n next used,
      fill-quota to_use one.next one.used table,
      length-append one.rows rest.added,
    )

-- With tokens at hand, `CreateRoutingTable` adds the number of rows that is missing to the quota, but
-- at least one, and at most one for each token.
pub capacity_test_quota :
    (percent : ℤ) (s : TokenState) (output : RoutingPacket)
    → s.tokens_used_since_last_update + length s.tokens < 2 ^ 64
    → let quota = tokens_to_use (length s.tokens) percent in
      let used = s.tokens_used_since_last_update in
      (length (create_routing_table percent s output).2
        ≡ length output + min (length s.tokens) (max 1 (quota - used)))
      × ((create_routing_table percent s output).1.tokens_used_since_last_update
          ≡ used + min (length s.tokens) (max 1 (quota - used)))
unfolding create_routing_table
capacity_test_quota percent s output h =
    let quota = tokens_to_use (length s.tokens) percent in
    let used = s.tokens_used_since_last_update in
    let table = sort_tokens s.tokens in
    ground (
      arith,
      length-append output (added_rows percent s),
      total-sort_tokens s.tokens,
      fill-quota quota s.next_sequence_id used table (rw (total-sort_tokens s.tokens) h)
          (sort_tokens-IsPositive s.tokens),
    )

route_first-Spends :
    (invalid_sequence_id : ℕ) (percent : ℤ) (s : TokenState) (seq : ℕ) (table : Assoc ℤ ℕ)
    → IsPositive table
    → ((r : ℤ) → count r s.tokens ≡ held r table)
    → let result = route_first invalid_sequence_id percent s seq table in
      Spends invalid_sequence_id seq
        (held_tokens percent s)
        (held_tokens result.0 result.1)
        result.2
unfolding route_first
route_first-Spends invalid_sequence_id percent s seq [] p h =
    inl (refl, λ r. unfold restore_unused_tokens in h r)
route_first-Spends invalid_sequence_id percent s seq ((k, n) ∷ table) p h =
    inr (k, refl, λ r. ground (arith, h r, held-cons r k n table, held-cons r k (n - 1) table))

pub capacity_test_route :
    (invalid_sequence_id : ℕ) (percent : ℤ) (s : TokenState) (seq : ℕ) (requesting_rank : ℤ)
    → let result = create_route_for_sequence_id invalid_sequence_id percent s seq requesting_rank in
      Spends invalid_sequence_id seq
        (held_tokens percent s)
        (held_tokens result.0 result.1)
        result.2
unfolding create_route_for_sequence_id
capacity_test_route invalid_sequence_id percent s seq requesting_rank =
    route_first-Spends invalid_sequence_id percent s seq (sort_tokens s.tokens)
      (sort_tokens-IsPositive s.tokens) (λ r. sym (restore-sort r s.tokens))

abbrev pub capacity_test : RoutingPolicy
capacity_test = record {
  Own = ℤ;
  create_routing_table = create_routing_table;
  create_route_for_sequence_id = create_route_for_sequence_id;
  held_tokens = held_tokens;
  table_appends = capacity_test_table;
  route_spends = capacity_test_route;
}
