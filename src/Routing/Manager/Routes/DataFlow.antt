-- ===== src/Routing/Manager/Routes/DataFlow.antt =====
-- `GetRouteForSequenceID` of RoutingManagerPolicy.cc in DataFlow, and in every mode.
use artdaq.Prelude.Ord.{nat_ord, int_ord}
use artdaq.Routing.Policy.{RoutingPolicy, Spends}
use artdaq.Routing.Manager.Cache.{lookup-trim_routing_cache, length-trim_routing_cache}
use artdaq.Routing.Manager.{
  Manager, RoutingCache, entries_for, add_entry, find_requested, RoutingCacheEntry, cache_entry,
  new_route, is_data_flow, route_for_event, get_route_for_sequence_id, route_for_data_flow,
  trim_routing_cache,
}
use artdaq.Prelude.{
  ℕ, ◌≡◌, refl, ◌∙◌, true, none, some, List, [], ◌∷◌, ◌++◌, arith, ap, Bool-cases, length, ◌≤◌, ◌⊎◌,
  inl, inr, Option-cases,
}
use artdaq.Prelude.Int.{eqb_ℤ_iff, ℤ}
use artdaq.Map.{contains, IsSorted}
use artdaq.Map.Laws.{IsSorted-insert}
use artdaq.Routing.Packet.{entry, RoutingPacketEntry}
use artdaq.Routing.Manager.Routes.{
  entries_for-add_entry, route_for_event-fresh, entry-eta, get-event,
}

find_requested-append :
    (r : ℤ) (es : List RoutingCacheEntry) (e : RoutingCacheEntry)
    → find_requested r es ≡ none
    → e.requesting_rank ≡ r
    → find_requested r (es ++ e ∷ []) ≡ some e
unfolding find_requested
find_requested-append r [] e h s = ground (arith, eqb_ℤ_iff e.requesting_rank r)
find_requested-append r (x ∷ es) e h s = ground (arith, find_requested-append r es e)

entries_for-trim :
    (seq n : ℕ) (e : RoutingCacheEntry) (cache : RoutingCache)
    → IsSorted cache
    → contains seq (trim_routing_cache n (add_entry seq e cache)) ≡ true
    → entries_for seq (trim_routing_cache n (add_entry seq e cache))
      ≡ entries_for seq cache ++ e ∷ []
entries_for-trim seq n e cache sorted kept = same-lookup ∙ entries_for-add_entry seq e cache
  where
    sorted' : IsSorted (add_entry seq e cache)
    sorted' = unfold add_entry in IsSorted-insert seq (entries_for seq cache ++ e ∷ []) cache sorted

    same-lookup :
        entries_for seq (trim_routing_cache n (add_entry seq e cache))
        ≡ entries_for seq (add_entry seq e cache)
    same-lookup =
        let same = lookup-trim_routing_cache seq n (add_entry seq e cache) sorted' kept in
        unfold entries_for in ground (arith, same)

module _ (p : RoutingPolicy) (invalid_sequence_id : ℕ) where
  data_flow-found :
      (m : Manager p.Own) (seq : ℕ) (r : ℤ) (e : RoutingCacheEntry)
      → find_requested r (entries_for seq m.routing_cache) ≡ some e
      → route_for_data_flow p invalid_sequence_id m seq r ≡ (m, entry seq e.destination_rank)
  unfolding route_for_data_flow
  data_flow-found m seq r e h = ground arith

  -- The manager after a new route with its cache trimmed.
  trimmed : Manager p.Own → Manager p.Own
  trimmed m = record m {
    routing_cache = trim_routing_cache m.routing_cache_max_size m.routing_cache;
  }

  data_flow-missed :
      (m : Manager p.Own) (seq : ℕ) (r : ℤ)
      → find_requested r (entries_for seq m.routing_cache) ≡ none
      → let result = new_route p invalid_sequence_id m seq r in
        route_for_data_flow p invalid_sequence_id m seq r ≡ (trimmed result.0, result.1)
  unfolding route_for_data_flow trimmed
  data_flow-missed m seq r h = ground arith

  get-data_flow :
      (m : Manager p.Own) (seq : ℕ) (r : ℤ)
      → is_data_flow m.routing_mode ≡ true
      → get_route_for_sequence_id p invalid_sequence_id m seq r
        ≡ route_for_data_flow p invalid_sequence_id m seq r
  unfolding get_route_for_sequence_id
  get-data_flow m seq r mode = rw mode

  abbrev Answers : Manager p.Own → ℕ → Manager p.Own × RoutingPacketEntry → Type 0
  Answers m seq result =
      (result.0 ≡ m)
      ⊎ Spends invalid_sequence_id seq (p.held_tokens m.own m.shared)
          (p.held_tokens result.0.own result.0.shared) result.1

  event-Answers :
      (m : Manager p.Own) (seq : ℕ) (r : ℤ)
      → Answers m seq (route_for_event p invalid_sequence_id m seq r)
  event-Answers m seq r = elim (Bool-cases (contains seq m.routing_cache)) [
    | inl old ↦ inl (unfold route_for_event in ground arith)
    | inr fresh ↦
        rw (route_for_event-fresh p invalid_sequence_id m seq r fresh)
          (inr (unfold new_route in p.route_spends invalid_sequence_id m.own m.shared seq r))
  ]

  data_flow-Answers :
      (m : Manager p.Own) (seq : ℕ) (r : ℤ)
      → Answers m seq (route_for_data_flow p invalid_sequence_id m seq r)
  data_flow-Answers m seq r =
      elim (Option-cases (find_requested r (entries_for seq m.routing_cache))) [
        | inl missed ↦ rw (data_flow-missed m seq r missed) (
            inr
              (unfold new_route trimmed in p.route_spends invalid_sequence_id m.own m.shared seq r))
        | inr (e, found) ↦ rw (data_flow-found m seq r e found) (inl refl)
      ]

  -- A request changes nothing, or it is answered by the policy, which takes one token of the receiver
  -- that it names, or none if it has no route.
  pub get_route-Spends :
      (m : Manager p.Own) (seq : ℕ) (r : ℤ)
      → let result = get_route_for_sequence_id p invalid_sequence_id m seq r in
        (result.0 ≡ m)
        ⊎ Spends invalid_sequence_id seq
            (p.held_tokens m.own m.shared)
            (p.held_tokens result.0.own result.0.shared)
            result.1
  get_route-Spends m seq r = elim (Bool-cases (is_data_flow m.routing_mode)) [
    | inl mode ↦ rw (get-data_flow m seq r mode) (data_flow-Answers m seq r)
    | inr mode ↦ rw (get-event p invalid_sequence_id m seq r mode) (event-Answers m seq r)
  ]

  -- In DataFlow the cache stays within its size.
  pub data_flow_cache_bounded :
      (m : Manager p.Own) (seq : ℕ) (r : ℤ)
      → is_data_flow m.routing_mode ≡ true
      → length m.routing_cache ≤ m.routing_cache_max_size
      → length (get_route_for_sequence_id p invalid_sequence_id m seq r).0.routing_cache
        ≤ m.routing_cache_max_size
  data_flow_cache_bounded m seq r mode h =
      rw (get-data_flow m seq r mode)
        (elim (Option-cases (find_requested r (entries_for seq m.routing_cache))) [
          | inl missed ↦
              rw (data_flow-missed m seq r missed)
                (unfold new_route trimmed in length-trim_routing_cache m.routing_cache_max_size _)
          | inr (e, found) ↦ rw (data_flow-found m seq r e found) h
        ])

  new_route-cache :
      (m : Manager p.Own) (seq : ℕ) (r : ℤ)
      → let result = new_route p invalid_sequence_id m seq r in
        result.1.sequence_id ≡ seq
        → result.0.routing_cache
          ≡ add_entry seq (cache_entry seq result.1.destination_rank r) m.routing_cache
  unfolding new_route
  new_route-cache m seq r valid = ground arith

  trimmed-new_route :
      (m : Manager p.Own) (seq : ℕ) (r : ℤ)
      → let result = new_route p invalid_sequence_id m seq r in
        result.1.sequence_id ≡ seq
        → (trimmed result.0).routing_cache
          ≡ trim_routing_cache m.routing_cache_max_size
              (add_entry seq (cache_entry seq result.1.destination_rank r) m.routing_cache)
  unfolding trimmed
  trimmed-new_route m seq r valid = rw (new_route-cache m seq r valid) (unfold new_route in refl)

  -- What a missed request leaves in the cache for a rank that asks again.
  missed-found :
      (m : Manager p.Own) (seq : ℕ) (r : ℤ)
      → find_requested r (entries_for seq m.routing_cache) ≡ none
      → IsSorted m.routing_cache
      → let result = new_route p invalid_sequence_id m seq r in
        result.1.sequence_id ≡ seq
        → contains seq (trimmed result.0).routing_cache ≡ true
        → find_requested r (entries_for seq (trimmed result.0).routing_cache)
          ≡ some (cache_entry seq result.1.destination_rank r)
  missed-found m seq r missed sorted valid kept =
      let result = new_route p invalid_sequence_id m seq r in
      let new = cache_entry seq result.1.destination_rank r in
      let cached = trimmed-new_route m seq r valid in
      let kept' : contains seq
            (trim_routing_cache m.routing_cache_max_size (add_entry seq new m.routing_cache))
          ≡ true =
        rw cached at kept in
      rw (cached, entries_for-trim seq m.routing_cache_max_size new m.routing_cache sorted kept')
        (find_requested-append r (entries_for seq m.routing_cache) new missed refl)

  route_for_data_flow-repeats :
      (m : Manager p.Own) (seq : ℕ) (r : ℤ)
      → IsSorted m.routing_cache
      → let result = route_for_data_flow p invalid_sequence_id m seq r in
        result.1.sequence_id ≡ seq
        → contains seq result.0.routing_cache ≡ true
        → route_for_data_flow p invalid_sequence_id result.0 seq r ≡ result
  route_for_data_flow-repeats m seq r sorted valid kept =
      elim (Option-cases (find_requested r (entries_for seq m.routing_cache))) [
        | inl missed ↦
            let same = data_flow-missed m seq r missed in
            let result = new_route p invalid_sequence_id m seq r in
            let valid' : result.1.sequence_id ≡ seq = rw same at valid in
            let kept' : contains seq (trimmed result.0).routing_cache ≡ true = rw same at kept in
            rw same (
              data_flow-found (trimmed result.0) seq r (cache_entry seq result.1.destination_rank r)
                (missed-found m seq r missed sorted valid' kept')
              ∙ ap (λ e. (trimmed result.0, e))
                  (entry-eta p invalid_sequence_id result.1 seq valid'))
        | inr (e, found) ↦ rw (data_flow-found m seq r e found) (data_flow-found m seq r e found)
      ]

  route_for_data_flow-mode :
      (m : Manager p.Own) (seq : ℕ) (r : ℤ)
      → (route_for_data_flow p invalid_sequence_id m seq r).0.routing_mode ≡ m.routing_mode
  unfolding route_for_data_flow new_route
  route_for_data_flow-mode m seq r = ground arith

  -- In DataFlow a rank that asks again for a sequence ID gets the same route and takes no token, as
  -- long as the route is not trimmed from the cache.
  pub data_flow_repeats :
      (m : Manager p.Own) (seq : ℕ) (r : ℤ)
      → is_data_flow m.routing_mode ≡ true
      → IsSorted m.routing_cache
      → (get_route_for_sequence_id p invalid_sequence_id m seq r).1.sequence_id ≡ seq
      → contains seq (get_route_for_sequence_id p invalid_sequence_id m seq r).0.routing_cache
        ≡ true
      → get_route_for_sequence_id p invalid_sequence_id
          (get_route_for_sequence_id p invalid_sequence_id m seq r).0
          seq
          r
        ≡ get_route_for_sequence_id p invalid_sequence_id m seq r
  data_flow_repeats m seq r mode sorted valid kept =
      let same = get-data_flow m seq r mode in
      let result = route_for_data_flow p invalid_sequence_id m seq r in
      let valid' : result.1.sequence_id ≡ seq = rw same at valid in
      let kept' : contains seq result.0.routing_cache ≡ true = rw same at kept in
      rw same (
        get-data_flow result.0 seq r (ap is_data_flow (route_for_data_flow-mode m seq r) ∙ mode)
        ∙ route_for_data_flow-repeats m seq r sorted valid' kept')
