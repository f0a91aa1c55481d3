-- ===== src/Routing/PreferSameHost/Choice.antt =====
-- The receiver that PreferSameHost_policy.cc chooses, against what its class comment promises.
use Prim.Native.String.{String}
use mathlib.Core.List.{Memᴰ}
use mathlib.Core.Path.{fun_ext, subst}
use artdaq.Prelude.Ord.{int_ord}
use artdaq.Routing.PreferSameHost.{
  is_on, max_rank_from, tokens_of, host_of, with_host, matching_ranks, choose_from, choose,
  create_route_for_sequence_id, PreferSameHostPolicy, create_routing_table, route_from,
}
use artdaq.Routing.PreferSameHost.Laws.{
  max_rank_from-IsBest, tokens_at-mem, tokens_at-le, contains-matching_ranks,
}
use artdaq.Prelude.{
  ltb, length, All, ℕ, ◌≤◌, ◌<◌, ◌≡◌, sym, ap, ◌∙◌, ◌⊎◌, inl, inr, true, false, ◌&&◌, [], ◌∷◌,
  arith, ◌≢◌, if◌then◌else◌, suc, ◌+◌, ◌-◌, refl, List, ◌++◌,
}
use artdaq.Prelude.Int.{eqb_ℤ_iff, ℤ, negsuc, eqb_ℤ}
use artdaq.Map.{Assoc, contains, IsSorted, KeySet, lookup, insert}
use artdaq.Routing.Tokens.{
  tokens_at, IsPositive, count, TokenState, get_receiver_count, sort_tokens, calculate_minimum,
  count-restore_unused_tokens, tokens_at-insert, sort_tokens-IsSorted, tokens_at-sort_tokens,
  restore-sort, sort_tokens-IsPositive,
}
use artdaq.Routing.Packet.{entry, RoutingPacket, Consecutive, destinations}
use artdaq.Routing.Policy.{Spends, RoutingPolicy}
use artdaq.Map.Laws.{IsSorted-insert}
use artdaq.Routing.Turns.{turns, held, turns-held, turns-Consecutive, total, total-sort_tokens}

tokens_of-mem :
    (w : ℤ) (n : ℕ) (table : Assoc ℤ ℕ) (ranks : KeySet ℤ)
    → Memᴰ (w, n) (tokens_of table ranks)
    → (n ≡ tokens_at w table) × (contains w ranks ≡ true)
unfolding tokens_of contains
tokens_of-mem w n table [] m = elim m [ ]
tokens_of-mem w n table ((r, u) ∷ ranks) (Memᴰ.head e) =
    let same : w ≡ r = ap (λ (p : ℤ × ℕ). p.0) e in
    let number : n ≡ tokens_at r table = ap (λ (p : ℤ × ℕ). p.1) e in
    (number ∙ ap (λ k. tokens_at k table) (sym same), ground (arith, eqb_ℤ_iff r w))
tokens_of-mem w n table ((r, u) ∷ ranks) (Memᴰ.tail i) =
    ground (arith, tokens_of-mem w n table ranks i)

tokens_of-le :
    (q : ℤ) (n : ℕ) (table : Assoc ℤ ℕ) (ranks : KeySet ℤ)
    → All (λ p. p.1 ≤ n) (tokens_of table ranks)
    → contains q ranks ≡ true
    → tokens_at q table ≤ n
unfolding tokens_of contains
tokens_of-le q n table [] a c = cc
tokens_of-le q n table ((r, u) ∷ ranks) a c =
    ground (arith, eqb_ℤ_iff r q, tokens_of-le q n table ranks a.1)

-- What the policy owes: a receiver on the host, with the most tokens of those on the host; or, if no
-- receiver on the host has a token, one with the most tokens of all. It has a token in either case.
abbrev pub IsChosen : Assoc ℤ String → String → (ℤ → ℕ) → ℤ → Type 0
IsChosen hosts host tokens w =
    (0 < tokens w)
    × (((is_on hosts host w ≡ true) × ((q : ℤ) → is_on hosts host q ≡ true → tokens q ≤ tokens w))
        ⊎ (((q : ℤ) → 0 < tokens q → is_on hosts host q ≡ false) × ((q : ℤ) → tokens q ≤ tokens w)))

module _ (hosts : Assoc ℤ String) (host : String) (table : Assoc ℤ ℕ)
    (sorted : IsSorted table) where
  Matches : (ranks : KeySet ℤ) → Type 0
  Matches ranks = (q : ℤ) → contains q ranks ≡ (is_on hosts host q && ltb 0 (tokens_at q table))

  choose_none :
      0 < length table
      → IsPositive table
      → Matches []
      → IsChosen hosts host (λ q. tokens_at q table) (max_rank_from (negsuc 0) 0 table)
  unfolding Matches contains
  choose_none some_token positive m = elim (max_rank_from-IsBest (negsuc 0) 0 table) [
    | inl (e, none_left) ↦ absurd (clash table some_token positive none_left)
    | inr (n, i, l, most) ↦
        let number = tokens_at-mem _ n table sorted i in
        (
          omega (arith, number),
          inr (λ q h. ground (arith, m q), λ q. omega (arith, number, tokens_at-le q n table most)),
        )
  ]
    where
      clash : (t : Assoc ℤ ℕ) → 0 < length t → IsPositive t → All (λ p. p.1 ≤ 0) t → ⊥
      clash [] l p a = omega arith
      clash (x ∷ t) l p a = omega arith

  choose_one :
      (r : ℤ) (u : Unit {0})
      → Matches ((r, u) ∷ [])
      → IsChosen hosts host (λ q. tokens_at q table) r
  unfolding Matches contains
  choose_one r u m = (
    ground (arith, m r, eqb_ℤ_iff r r),
    inl (ground (arith, m r, eqb_ℤ_iff r r), λ q h. ground (arith, m q, eqb_ℤ_iff r q)),
  )

  choose_more :
      (r : ℤ) (u : Unit {0}) (ranks : KeySet ℤ)
      → Matches ((r, u) ∷ ranks)
      → IsChosen hosts host
          (λ q. tokens_at q table)
          (max_rank_from (negsuc 0) 0 (tokens_of table ((r, u) ∷ ranks)))
  unfolding Matches
  choose_more r u ranks m =
      let set = (r, u) ∷ ranks in
      elim (max_rank_from-IsBest (negsuc 0) 0 (tokens_of table set)) [
        | inl (e, none_left) ↦ absurd (
            unfold contains in
            ground (arith, m r, eqb_ℤ_iff r r, tokens_of-le r 0 table set none_left))
        | inr (n, i, l, most) ↦
            let (number, inside) = tokens_of-mem _ n table set i in
            (
              omega (arith, number),
              inl (
                ground (arith, m (max_rank_from (negsuc 0) 0 (tokens_of table set)), inside),
                λ q h. ground (arith, number, m q, tokens_of-le q n table set most),
              ),
            )
      ]

  choose_from-IsChosen :
      (ranks : KeySet ℤ)
      → 0 < length table
      → IsPositive table
      → Matches ranks
      → IsChosen hosts host (λ q. tokens_at q table) (choose_from table ranks)
  unfolding choose_from
  choose_from-IsChosen [] some_token positive m = choose_none some_token positive m
  choose_from-IsChosen ((r, u) ∷ []) some_token positive m = choose_one r u m
  choose_from-IsChosen ((r, u) ∷ q ∷ ranks) some_token positive m = choose_more r u (q ∷ ranks) m

  pub choose-IsChosen :
      0 < length table
      → IsPositive table
      → IsChosen hosts host (λ q. tokens_at q table) (choose hosts host table)
  unfolding choose Matches
  choose-IsChosen some_token positive =
      choose_from-IsChosen (matching_ranks hosts host table) some_token positive
        (λ q. contains-matching_ranks hosts host q table sorted)

route_from-IsChosen :
    (invalid_sequence_id : ℕ) (o : PreferSameHostPolicy) (s : TokenState) (seq : ℕ)
    (requesting_rank : ℤ) (table : Assoc ℤ ℕ)
    → 0 < length table
    → IsSorted table
    → IsPositive table
    → (rank : ℤ) × ((route_from invalid_sequence_id o s seq requesting_rank table).2
        ≡ entry seq rank)
      × IsChosen
          (with_host requesting_rank o.host_map)
          (host_of requesting_rank o.host_map)
          (λ q. tokens_at q table)
          rank
unfolding route_from
route_from-IsChosen invalid_sequence_id o s seq requesting_rank [] l sorted positive = elim l [ ]
route_from-IsChosen invalid_sequence_id o s seq requesting_rank (p ∷ rest) l sorted positive =
    (_, refl, choose-IsChosen _ _ (p ∷ rest) sorted l positive)

length-sort_tokens : (ts : List ℤ) → ts ≢ [] → 0 < length (sort_tokens ts)
length-sort_tokens ts h = go (sort_tokens ts) ts (total-sort_tokens ts) h
  where
    go : (table : Assoc ℤ ℕ) (ts : List ℤ) → total table ≡ length ts → ts ≢ [] → 0 < length table
    go [] [] e h = absurd (h refl)
    go [] (t ∷ ts) e h = unfold total in omega arith
    go (p ∷ table) ts e h = omega arith

-- With a token at hand, `CreateRouteForSequenceID` names a receiver on the requester's host that has
-- the most tokens there, or, if none there has a token, one that has the most tokens of all.
pub prefer_same_host_choice :
    (invalid_sequence_id : ℕ) (o : PreferSameHostPolicy) (s : TokenState) (seq : ℕ)
    (requesting_rank : ℤ)
    → s.tokens ≢ []
    → (rank : ℤ) × ((create_route_for_sequence_id invalid_sequence_id o s seq requesting_rank).2
        ≡ entry seq rank)
      × IsChosen
          (with_host requesting_rank o.host_map)
          (host_of requesting_rank o.host_map)
          (λ q. count q s.tokens)
          rank
unfolding create_route_for_sequence_id
prefer_same_host_choice invalid_sequence_id o s seq requesting_rank some_token =
    subst
      (λ tokens.
        (rank : ℤ) × ((create_route_for_sequence_id invalid_sequence_id o s seq requesting_rank).2
          ≡ entry seq rank)
        × IsChosen (with_host requesting_rank o.host_map) (host_of requesting_rank o.host_map)
            tokens rank)
      (fun_ext (λ q. tokens_at-sort_tokens q s.tokens))
      (route_from-IsChosen invalid_sequence_id o s seq requesting_rank (sort_tokens s.tokens)
        (length-sort_tokens s.tokens some_token) (sort_tokens-IsSorted s.tokens)
        (sort_tokens-IsPositive s.tokens))

-- Taking one token of a rank that has one.
held-take :
    (r rank : ℤ) (table : Assoc ℤ ℕ)
    → IsSorted table
    → 0 < tokens_at rank table
    → tokens_at r table
      ≡ (if eqb_ℤ rank r then 1 else 0) + held r (insert rank (tokens_at rank table - 1) table)
held-take r rank table sorted some_token =
    let less = tokens_at rank table - 1 in
    ground (
      arith,
      count-restore_unused_tokens r (insert rank less table)
          (IsSorted-insert rank less table sorted),
      tokens_at-insert r rank less table,
      eqb_ℤ_iff rank r,
    )

route_from-Spends :
    (invalid_sequence_id : ℕ) (o : PreferSameHostPolicy) (s : TokenState) (seq : ℕ)
    (requesting_rank : ℤ) (table : Assoc ℤ ℕ)
    → IsSorted table
    → IsPositive table
    → let result = route_from invalid_sequence_id o s seq requesting_rank table in
      Spends invalid_sequence_id seq
        (λ r. tokens_at r table)
        (λ r. count r result.1.tokens)
        result.2
unfolding route_from
route_from-Spends invalid_sequence_id o s seq requesting_rank [] sorted positive =
    inl (refl, λ r. unfold tokens_at lookup count in refl)
route_from-Spends invalid_sequence_id o s seq requesting_rank (p ∷ rest) sorted positive = inr (
  _,
  refl,
  λ r.
      held-take r _ (p ∷ rest) sorted
        (choose-IsChosen _ _ (p ∷ rest) sorted (omega arith) positive).0,
)

pub prefer_same_host_route :
    (invalid_sequence_id : ℕ) (o : PreferSameHostPolicy) (s : TokenState) (seq : ℕ)
    (requesting_rank : ℤ)
    → let result = create_route_for_sequence_id invalid_sequence_id o s seq requesting_rank in
      Spends invalid_sequence_id seq (λ r. count r s.tokens) (λ r. count r result.1.tokens) result.2
unfolding create_route_for_sequence_id
prefer_same_host_route invalid_sequence_id o s seq requesting_rank =
    subst
      (λ tokens.
        let result = create_route_for_sequence_id invalid_sequence_id o s seq requesting_rank in
        Spends invalid_sequence_id seq tokens (λ r. count r result.1.tokens) result.2)
      (fun_ext (λ q. tokens_at-sort_tokens q s.tokens))
      (route_from-Spends invalid_sequence_id o s seq requesting_rank (sort_tokens s.tokens)
        (sort_tokens-IsSorted s.tokens) (sort_tokens-IsPositive s.tokens))

prefer_same_host_table :
    (o : PreferSameHostPolicy) (s : TokenState) (output : RoutingPacket)
    → (added : RoutingPacket) × ((create_routing_table o s output).2 ≡ output ++ added)
      × Consecutive s.next_sequence_id added (create_routing_table o s output).1.next_sequence_id
      × ((r : ℤ)
          → count r s.tokens
            ≡ count r (destinations added) + count r (create_routing_table o s output).1.tokens)
unfolding create_routing_table
prefer_same_host_table o s output =
    let table = sort_tokens s.tokens in
    let minimum = calculate_minimum o.minimum_participants (get_receiver_count s) in
    (
      (turns (suc (total table)) minimum s.next_sequence_id table).added,
      refl,
      turns-Consecutive (suc (total table)) minimum s.next_sequence_id table,
      λ r.
          sym (restore-sort r s.tokens)
          ∙ turns-held r (suc (total table)) minimum s.next_sequence_id table
              (sort_tokens-IsPositive s.tokens),
    )

pub prefer_same_host : RoutingPolicy
prefer_same_host = record {
  Own = PreferSameHostPolicy;
  create_routing_table = create_routing_table;
  create_route_for_sequence_id = create_route_for_sequence_id;
  held_tokens = λ o s r. count r s.tokens;
  table_appends = prefer_same_host_table;
  route_spends = prefer_same_host_route;
}
