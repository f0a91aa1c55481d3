-- ===== src/Routing/Manager/Cache.antt =====
-- The cache of routes in RoutingManagerPolicy.cc: trimming, and the tables made from it.
use artdaq.Prelude.Ord.{nat_ord, int_ord}
use artdaq.Routing.Policy.{RoutingPolicy}
use artdaq.Routing.Manager.{
  Manager, RoutingCache, add_entry, trim_routing_cache, update_cache, rows_from_cache,
  create_routing_table_from_cache, get_current_table, RoutingCacheEntry, cache_entry, entries_for,
}
use artdaq.Prelude.{
  ltb, Bool-cases, length, All, ℕ, ◌≤◌, ◌≡◌, refl, inl, inr, true, ◌||◌, List, [], ◌∷◌, arith, ◌==◌,
  ◌∙◌, Bool, false, ◌++◌,
}
use artdaq.Prelude.Int.{ℤ}
use artdaq.Map.{lookup, contains, Above, IsSorted, insert}
use artdaq.Map.Laws.{not_contains_of_Above, contains-insert}
use artdaq.Routing.Packet.{RoutingPacket, request_based_event_building, event_building}

pub length-trim_routing_cache :
    (n : ℕ) (cache : RoutingCache) → length (trim_routing_cache n cache) ≤ n
unfolding trim_routing_cache
length-trim_routing_cache n [] = omega arith
length-trim_routing_cache n (e ∷ cache) = ground (arith, length-trim_routing_cache n cache)

trim-Above : (k n : ℕ) (cache : RoutingCache) → Above k cache → Above k (trim_routing_cache n cache)
unfolding trim_routing_cache
trim-Above k n [] a = tt
trim-Above k n (e ∷ cache) a = ground (arith, trim-Above k n cache a.1)

-- What trimming leaves is as it was.
pub lookup-trim_routing_cache :
    (seq n : ℕ) (cache : RoutingCache)
    → IsSorted cache
    → contains seq (trim_routing_cache n cache) ≡ true
    → lookup seq (trim_routing_cache n cache) ≡ lookup seq cache
unfolding trim_routing_cache contains lookup
lookup-trim_routing_cache seq n [] s h = refl
lookup-trim_routing_cache seq n ((k, es) ∷ cache) s h = ground (
  arith,
  lookup-trim_routing_cache seq n cache s.1,
  not_contains_of_Above k (trim_routing_cache n cache) (trim-Above k n cache s.0),
)

-- The first entry of every sequence ID is marked as included in a table.
IsMarked : List RoutingCacheEntry → Type 0
IsMarked [] = Unit {0}
IsMarked (e ∷ es) = e.included_in_table ≡ true

abbrev AllMarked : RoutingCache → Type 0
AllMarked = All (λ p. IsMarked p.1)

rows_from_cache-AllMarked : (cache : RoutingCache) → AllMarked (rows_from_cache cache).1
unfolding rows_from_cache IsMarked
rows_from_cache-AllMarked [] = tt
rows_from_cache-AllMarked ((seq, []) ∷ cache) = (tt, rows_from_cache-AllMarked cache)
rows_from_cache-AllMarked ((seq, e ∷ es) ∷ cache) = ground (arith, rows_from_cache-AllMarked cache)

trim-AllMarked :
    (n : ℕ) (cache : RoutingCache) → AllMarked cache → AllMarked (trim_routing_cache n cache)
unfolding trim_routing_cache
trim-AllMarked n [] a = tt
trim-AllMarked n (e ∷ cache) a = elim (Bool-cases (ltb n (length (e ∷ cache)))) [
  | inl large ↦ rw large (trim-AllMarked n cache a.1)
  | inr small ↦ rw small a
]

rows-AllMarked : (cache : RoutingCache) → AllMarked cache → (rows_from_cache cache).0 ≡ []
unfolding rows_from_cache IsMarked
rows-AllMarked [] a = refl
rows-AllMarked ((seq, []) ∷ cache) a = rows-AllMarked cache a.1
rows-AllMarked ((seq, e ∷ es) ∷ cache) a = ground (arith, rows-AllMarked cache a.1)

module _ (p : RoutingPolicy) (my_rank : ℤ) where
  -- In RequestBasedEventBuilding a cached route goes into one table only: a second table that is
  -- asked for at once is empty.
  pub get_current_table_twice :
      (m : Manager p.Own)
      → m.routing_mode ≡ request_based_event_building
      → (get_current_table p my_rank (get_current_table p my_rank m).0).1 ≡ []
  unfolding get_current_table create_routing_table_from_cache
  get_current_table_twice m h =
      let marked = (rows_from_cache m.routing_cache).1 in
      ground (
        arith,
        rows-AllMarked (trim_routing_cache m.routing_cache_max_size marked) (
            trim-AllMarked m.routing_cache_max_size marked
              (rows_from_cache-AllMarked m.routing_cache)),
      )

-- The sequence IDs of the rows of a table.
abbrev pub routed : ℕ → RoutingPacket → Bool
routed seq [] = false
routed seq (e ∷ table) = e.sequence_id == seq || routed seq table

contains-update_cache :
    (my_rank : ℤ) (table : RoutingPacket) (cache : RoutingCache) (seq : ℕ)
    → contains seq (update_cache my_rank table cache) ≡ (routed seq table || contains seq cache)
unfolding update_cache add_entry
contains-update_cache my_rank [] cache seq = refl
contains-update_cache my_rank (e ∷ table) cache seq =
    let new = cache_entry e.sequence_id e.destination_rank my_rank in
    elim (Bool-cases (contains e.sequence_id cache)) [
      | inl old ↦ rw old (contains-update_cache my_rank table cache seq ∙ ground arith)
      | inr fresh ↦ rw fresh (
          contains-update_cache my_rank table
            (insert e.sequence_id (entries_for e.sequence_id cache ++ new ∷ []) cache) seq
          ∙ ground (
            arith,
            contains-insert seq e.sequence_id (entries_for e.sequence_id cache ++ new ∷ []) cache,
          ))
    ]

module _ (p : RoutingPolicy) (my_rank : ℤ) where
  -- In EventBuilding exactly the sequence IDs of the new table are added to the cache, and none
  -- leaves it: `routing_cache_size` is not applied in this mode.
  pub contains-get_current_table :
      (m : Manager p.Own) (seq : ℕ)
      → m.routing_mode ≡ event_building
      → let result = get_current_table p my_rank m in
        contains seq result.0.routing_cache ≡ (routed seq result.1 || contains seq m.routing_cache)
  unfolding get_current_table create_routing_table_from_cache
  contains-get_current_table m seq h = ground (
    arith,
    contains-update_cache my_rank (p.create_routing_table m.own m.shared []).2 m.routing_cache seq,
  )
