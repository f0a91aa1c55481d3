-- ===== src/Routing/Policy.antt =====
-- What RoutingManagerPolicy asks of the policies that derive from it
-- (artdaq/RoutingPolicies/RoutingManagerPolicy.hh, the pure virtual members), with the laws that
-- its callers rely on.
use artdaq.Routing.Packet.{
  RoutingPacket, entry, default_entry, Consecutive, destinations, RoutingPacketEntry,
}
use artdaq.Routing.Tokens.{count, TokenState}
use artdaq.Prelude.{if◌then◌else◌, ℕ, ◌+◌, ◌≡◌, ◌⊎◌, ◌++◌}
use artdaq.Prelude.Int.{eqb_ℤ, ℤ}

-- A route takes one token of the receiver that it names, or there is no route and no token goes.
abbrev pub Spends : ℕ → ℕ → (ℤ → ℕ) → (ℤ → ℕ) → RoutingPacketEntry → Type 0
Spends invalid_sequence_id seq before after e =
    ((e ≡ default_entry invalid_sequence_id) × ((r : ℤ) → before r ≡ after r))
    ⊎ ((rank : ℤ) × (e ≡ entry seq rank)
        × ((r : ℤ) → before r ≡ (if eqb_ℤ rank r then 1 else 0) + after r))

-- A policy: its private members, and the two virtual functions on them and the shared state. The
-- laws speak of the tokens of a rank that the policy still holds, in the token list or set aside.
pub record RoutingPolicy : Type 1 where
  pub Own : Type 0
  pub create_routing_table : Own → TokenState → RoutingPacket → Own × TokenState × RoutingPacket
  pub create_route_for_sequence_id :
      ℕ → Own → TokenState → ℕ → ℤ → Own × TokenState × RoutingPacketEntry
  pub held_tokens : Own → TokenState → ℤ → ℕ
  pub table_appends :
      (o : Own) (s : TokenState) (out : RoutingPacket)
      → (added : RoutingPacket) × ((create_routing_table o s out).2 ≡ out ++ added)
        × Consecutive s.next_sequence_id added (create_routing_table o s out).1.next_sequence_id
        × ((r : ℤ)
            → held_tokens o s r
              ≡ count r (destinations added)
                + held_tokens (create_routing_table o s out).0 (create_routing_table o s out).1 r)
  pub route_spends :
      (invalid_sequence_id : ℕ) (o : Own) (s : TokenState) (seq : ℕ) (requesting_rank : ℤ)
      → let result = create_route_for_sequence_id invalid_sequence_id o s seq requesting_rank in
        Spends invalid_sequence_id seq (held_tokens o s) (held_tokens result.0 result.1) result.2
