-- ===== src/Routing/Manager/Routes/Repeats.antt =====
-- `GetRouteForSequenceID` of RoutingManagerPolicy.cc outside DataFlow, asked again after other calls.
use artdaq.Prelude.Ord.{nat_ord, int_ord}
use artdaq.Routing.Policy.{RoutingPolicy}
use artdaq.Routing.Manager.Receivers.{add_receiver_token, reset}
use artdaq.Routing.Manager.{
  Manager, RoutingCache, entries_for, add_entry, RoutingCacheEntry, cache_entry, new_route,
  is_data_flow, route_for_event, get_route_for_sequence_id,
}
use artdaq.Prelude.{
  ◌==◌, ==_iff, ℕ, ◌≡◌, refl, ◌∙◌, true, false, List, [], ◌∷◌, ◌++◌, arith, ap, Bool-cases, inl,
  inr,
}
use artdaq.Prelude.Int.{ℤ}
use artdaq.Map.{contains}
use artdaq.Map.Laws.{lookup-insert, contains-insert}
use artdaq.Routing.Manager.Routes.{
  new_route-cached, route_for_event-fresh, route_for_event-mode, route_for_event-repeats, get-event,
}

entries_for-add_other :
    (seq other : ℕ) (e : RoutingCacheEntry) (cache : RoutingCache)
    → (other == seq) ≡ false
    → entries_for seq (add_entry other e cache) ≡ entries_for seq cache
unfolding entries_for add_entry
entries_for-add_other seq other e cache h =
    ground (arith, lookup-insert seq other (entries_for other cache ++ e ∷ []) cache)

-- The sequence ID is cached with these entries.
abbrev pub IsRoutedAs : ℕ → List RoutingCacheEntry → RoutingCache → Type 0
IsRoutedAs seq es cache = (contains seq cache ≡ true) × (entries_for seq cache ≡ es)

add_other-IsRoutedAs :
    (seq other : ℕ) (e : RoutingCacheEntry) (cache : RoutingCache)
    → contains seq cache ≡ true
    → (other == seq) ≡ false
    → IsRoutedAs seq (entries_for seq cache) (add_entry other e cache)
unfolding add_entry
add_other-IsRoutedAs seq other e cache c apart = (
  contains-insert seq other (entries_for other cache ++ e ∷ []) cache ∙ ground arith,
  unfold add_entry in entries_for-add_other seq other e cache apart,
)

-- What may come between two requests for a route: another request, tokens of a receiver, a reset.
pub data Call : Type 0 where
  asked : ℕ → ℤ → Call
  received : (ℕ → ℕ) → ℤ → ℕ → Call
  restarted : Call

module _ (p : RoutingPolicy) (invalid_sequence_id : ℕ) where
  new_route-known :
      (m : Manager p.Own) (seq other : ℕ) (r : ℤ)
      → contains seq m.routing_cache ≡ true
      → (other == seq) ≡ false
      → IsRoutedAs seq
          (entries_for seq m.routing_cache)
          (new_route p invalid_sequence_id m other r).0.routing_cache
  unfolding new_route
  new_route-known m seq other r c apart =
      let dest =
        (p.create_route_for_sequence_id invalid_sequence_id m.own m.shared other
          r).2.destination_rank in
      let new = cache_entry other dest r in
      ground (arith, c, add_other-IsRoutedAs seq other new m.routing_cache c apart)

  route_for_event-known :
      (m : Manager p.Own) (seq other : ℕ) (r : ℤ)
      → contains seq m.routing_cache ≡ true
      → IsRoutedAs seq
          (entries_for seq m.routing_cache)
          (route_for_event p invalid_sequence_id m other r).0.routing_cache
  route_for_event-known m seq other r c = elim (Bool-cases (contains other m.routing_cache)) [
    | inl old ↦ unfold route_for_event in ground arith
    | inr fresh ↦
        let apart : (other == seq) ≡ false = ground (arith, ==_iff other seq) in
        rw (route_for_event-fresh p invalid_sequence_id m other r fresh)
          (new_route-known m seq other r c apart)
  ]

  abbrev pub call : Manager p.Own → Call → Manager p.Own
  call m (asked seq r) = (get_route_for_sequence_id p invalid_sequence_id m seq r).0
  call m (received rand rank slots) = add_receiver_token rand m rank slots
  call m restarted = reset m

  abbrev pub call_all : Manager p.Own → List Call → Manager p.Own
  call_all m [] = m
  call_all m (c ∷ calls) = call_all (call m c) calls

  call-known :
      (m : Manager p.Own) (seq : ℕ) (c : Call)
      → is_data_flow m.routing_mode ≡ false
      → contains seq m.routing_cache ≡ true
      → ((call m c).routing_mode ≡ m.routing_mode)
        × IsRoutedAs seq (entries_for seq m.routing_cache) (call m c).routing_cache
  unfolding add_receiver_token reset
  call-known m seq (asked other r) mode known =
      rw (call, get-event p invalid_sequence_id m other r mode)
        (
          route_for_event-mode p invalid_sequence_id m other r,
          route_for_event-known m seq other r known,
        )
  call-known m seq (received rand rank slots) mode known = (refl, (known, refl))
  call-known m seq restarted mode known = (refl, (known, refl))

  call_all-known :
      (calls : List Call) (m : Manager p.Own) (seq : ℕ)
      → is_data_flow m.routing_mode ≡ false
      → contains seq m.routing_cache ≡ true
      → ((call_all m calls).routing_mode ≡ m.routing_mode)
        × IsRoutedAs seq (entries_for seq m.routing_cache) (call_all m calls).routing_cache
  call_all-known [] m seq mode known = (refl, (known, refl))
  call_all-known (c ∷ calls) m seq mode known =
      let first = call-known m seq c mode known in
      let later = call_all-known calls (call m c) seq (ap is_data_flow first.0 ∙ mode) first.1.0 in
      (later.0 ∙ first.0, (later.1.0, later.1.1 ∙ first.1.1))

  -- A sequence ID is cached once it got a route.
  given-known :
      (m : Manager p.Own) (seq : ℕ) (r : ℤ)
      → let result = route_for_event p invalid_sequence_id m seq r in
        result.1.sequence_id ≡ seq → contains seq result.0.routing_cache ≡ true
  given-known m seq r valid = elim (Bool-cases (contains seq m.routing_cache)) [
    | inl old ↦ (route_for_event-known m seq seq r old).0
    | inr fresh ↦
        let same = route_for_event-fresh p invalid_sequence_id m seq r fresh in
        rw same (new_route-cached p invalid_sequence_id m seq r fresh (rw same at valid)).0
  ]

  route_for_event-same :
      (m n : Manager p.Own) (seq : ℕ) (q : ℤ)
      → contains seq m.routing_cache ≡ true
      → IsRoutedAs seq (entries_for seq m.routing_cache) n.routing_cache
      → route_for_event p invalid_sequence_id n seq q
        ≡ (n, (route_for_event p invalid_sequence_id m seq q).1)
  unfolding route_for_event
  route_for_event-same m n seq q known routed = ground (arith, known, routed.0, routed.1)

  -- Outside DataFlow, once a request for a sequence ID got a route, a later request for it, from any
  -- rank, gets the same route and changes nothing, whatever route requests, tokens and resets came in
  -- between.
  pub route_repeats :
      (m : Manager p.Own) (seq : ℕ) (r q : ℤ) (calls : List Call)
      → is_data_flow m.routing_mode ≡ false
      → (get_route_for_sequence_id p invalid_sequence_id m seq r).1.sequence_id ≡ seq
      → let later = call_all (get_route_for_sequence_id p invalid_sequence_id m seq r).0 calls in
        get_route_for_sequence_id p invalid_sequence_id later seq q
        ≡ (later, (get_route_for_sequence_id p invalid_sequence_id m seq r).1)
  route_repeats m seq r q calls mode valid =
      let same = get-event p invalid_sequence_id m seq r mode in
      let result = route_for_event p invalid_sequence_id m seq r in
      let valid' : result.1.sequence_id ≡ seq = rw same at valid in
      let mode' = ap is_data_flow (route_for_event-mode p invalid_sequence_id m seq r) ∙ mode in
      let known = given-known m seq r valid' in
      let kept = call_all-known calls result.0 seq mode' known in
      let later = call_all result.0 calls in
      rw same (
        get-event p invalid_sequence_id later seq q (ap is_data_flow kept.0 ∙ mode')
        ∙ route_for_event-same result.0 later seq q known kept.1
        ∙ ap (λ e. (later, e.1)) (route_for_event-repeats p invalid_sequence_id m seq r q valid'))
