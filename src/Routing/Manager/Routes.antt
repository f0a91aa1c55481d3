-- ===== src/Routing/Manager/Routes.antt =====
-- `GetRouteForSequenceID` of RoutingManagerPolicy.cc outside DataFlow, over any policy that keeps its
-- laws.
pub mod DataFlow
pub mod Repeats
use artdaq.Prelude.Ord.{nat_ord, int_ord}
use artdaq.Routing.Policy.{RoutingPolicy}
use artdaq.Routing.Manager.Receivers.{reset}
use artdaq.Routing.Manager.{
  Manager, RoutingCache, entries_for, add_entry, RoutingCacheEntry, cache_entry, new_route,
  is_data_flow, route_for_event, get_route_for_sequence_id,
}
use artdaq.Prelude.{
  ℕ, ◌≡◌, refl, ◌∙◌, true, false, List, [], ◌∷◌, ◌++◌, arith, sym, ap, Bool-cases, inl, inr,
}
use artdaq.Prelude.Int.{ℤ}
use artdaq.Map.{lookup, contains}
use artdaq.Map.Laws.{lookup-insert, contains-insert}
use artdaq.Routing.Packet.{entry, RoutingPacketEntry}

-- What is cached after a new route.
pub entries_for-add_entry :
    (seq : ℕ) (e : RoutingCacheEntry) (cache : RoutingCache)
    → entries_for seq (add_entry seq e cache) ≡ entries_for seq cache ++ e ∷ []
unfolding entries_for add_entry
entries_for-add_entry seq e cache =
    ground (arith, lookup-insert seq seq (entries_for seq cache ++ e ∷ []) cache)

entries_for-missing :
    (seq : ℕ) (cache : RoutingCache) → contains seq cache ≡ false → entries_for seq cache ≡ []
unfolding entries_for contains lookup
entries_for-missing seq [] h = refl
entries_for-missing seq ((k, es) ∷ cache) h = ground (arith, entries_for-missing seq cache)

pub contains-add_entry :
    (seq : ℕ) (e : RoutingCacheEntry) (cache : RoutingCache)
    → contains seq (add_entry seq e cache) ≡ true
unfolding add_entry
contains-add_entry seq e cache =
    contains-insert seq seq (entries_for seq cache ++ e ∷ []) cache ∙ ground arith

module _ (p : RoutingPolicy) (invalid_sequence_id : ℕ) where
  -- A new route is the first entry that is cached for a sequence ID that had none.
  pub new_route-cached :
      (m : Manager p.Own) (seq : ℕ) (r : ℤ)
      → contains seq m.routing_cache ≡ false
      → let result = new_route p invalid_sequence_id m seq r in
        result.1.sequence_id ≡ seq
        → (contains seq result.0.routing_cache ≡ true)
          × (entries_for seq result.0.routing_cache
              ≡ cache_entry seq result.1.destination_rank r ∷ [])
  unfolding new_route
  new_route-cached m seq r fresh valid =
      let dest =
        (p.create_route_for_sequence_id invalid_sequence_id m.own m.shared seq
          r).2.destination_rank in
      let new = cache_entry seq dest r in
      ground (
        arith,
        contains-add_entry seq new m.routing_cache,
        entries_for-add_entry seq new m.routing_cache,
        entries_for-missing seq m.routing_cache,
      )

  pub route_for_event-cached :
      (m : Manager p.Own) (seq : ℕ) (r : ℤ) (e : RoutingCacheEntry) (es : List RoutingCacheEntry)
      → contains seq m.routing_cache ≡ true
      → entries_for seq m.routing_cache ≡ e ∷ es
      → route_for_event p invalid_sequence_id m seq r ≡ (m, entry seq e.destination_rank)
  unfolding route_for_event
  route_for_event-cached m seq r e es c h = ground arith

  pub route_for_event-again :
      (m : Manager p.Own) (seq : ℕ) (r q : ℤ)
      → contains seq m.routing_cache ≡ true
      → route_for_event p invalid_sequence_id
          (route_for_event p invalid_sequence_id m seq r).0
          seq
          q
        ≡ route_for_event p invalid_sequence_id m seq r
  unfolding route_for_event
  route_for_event-again m seq r q c = ground arith

  pub route_for_event-fresh :
      (m : Manager p.Own) (seq : ℕ) (r : ℤ)
      → contains seq m.routing_cache ≡ false
      → route_for_event p invalid_sequence_id m seq r ≡ new_route p invalid_sequence_id m seq r
  unfolding route_for_event
  route_for_event-fresh m seq r c = ground arith

  pub entry-eta :
      (e : RoutingPacketEntry) (seq : ℕ) → e.sequence_id ≡ seq → entry seq e.destination_rank ≡ e
  entry-eta e seq h = ap (λ k. entry k e.destination_rank) (sym h)

  pub route_for_event-mode :
      (m : Manager p.Own) (seq : ℕ) (r : ℤ)
      → (route_for_event p invalid_sequence_id m seq r).0.routing_mode ≡ m.routing_mode
  unfolding route_for_event new_route
  route_for_event-mode m seq r = ground arith

  pub route_for_event-repeats :
      (m : Manager p.Own) (seq : ℕ) (r q : ℤ)
      → let result = route_for_event p invalid_sequence_id m seq r in
        result.1.sequence_id ≡ seq → route_for_event p invalid_sequence_id result.0 seq q ≡ result
  route_for_event-repeats m seq r q valid = elim (Bool-cases (contains seq m.routing_cache)) [
    | inl old ↦ route_for_event-again m seq r q old
    | inr fresh ↦
        let same = route_for_event-fresh m seq r fresh in
        let result = new_route p invalid_sequence_id m seq r in
        let valid' : result.1.sequence_id ≡ seq = rw same at valid in
        let cached = new_route-cached m seq r fresh valid' in
        rw same (
          route_for_event-cached result.0 seq q (cache_entry seq result.1.destination_rank r) []
            cached.0 cached.1
          ∙ ap (λ e. (result.0, e)) (entry-eta result.1 seq valid'))
  ]

  pub get-event :
      (m : Manager p.Own) (seq : ℕ) (r : ℤ)
      → is_data_flow m.routing_mode ≡ false
      → get_route_for_sequence_id p invalid_sequence_id m seq r
        ≡ route_for_event p invalid_sequence_id m seq r
  unfolding get_route_for_sequence_id
  get-event m seq r mode = rw mode

  -- A cached sequence ID outlives `Reset`: it is routed as before, though no token is left and the
  -- sequence IDs start again at 1.
  pub reset_keeps_routes :
      (m : Manager p.Own) (seq : ℕ) (r : ℤ)
      → is_data_flow m.routing_mode ≡ false
      → contains seq m.routing_cache ≡ true
      → get_route_for_sequence_id p invalid_sequence_id (reset m) seq r
        ≡ (reset m, (get_route_for_sequence_id p invalid_sequence_id m seq r).1)
  unfolding get_route_for_sequence_id route_for_event reset
  reset_keeps_routes m seq r mode cached = ground arith
