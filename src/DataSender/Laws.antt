-- ===== src/DataSender/Laws.antt =====
-- The turns of the destinations.
use artdaq.Prelude.Ord.{int_ord, nat_ord}
use artdaq.Prelude.{
  length, ℕ, zero, suc, ◌%◌, ◌<◌, ◌≡◌, refl, sym, ap, [], ◌∷◌, arith, ◌∙◌, true, false, List,
}
use artdaq.Prelude.Int.{ℤ, eqb_ℤ_iff}
use artdaq.Map.{KeySet, contains}
use artdaq.DataSender.{walk, by_turns, calc_among, calc_dest, Links, DataSender}
use artdaq.TableReceiver.{routing_failed, TableReceiver, TableUpdate}

-- The rank at a place of the set.
abbrev pub rank_at : ℕ → KeySet ℤ → ℤ
rank_at index [] = routing_failed
rank_at zero ((d, u) ∷ rest) = d
rank_at (suc index) ((d, u) ∷ rest) = rank_at index rest

walk-rank_at :
    (ring : KeySet ℤ) (index : ℕ) (rest : KeySet ℤ)
    → index < length rest
    → walk ring index rest ≡ rank_at index rest
unfolding walk
walk-rank_at ring index [] h = refl
walk-rank_at ring zero ((d, u) ∷ rest) h = refl
walk-rank_at ring (suc index) ((d, u) ∷ []) h = ground arith
walk-rank_at ring (suc index) ((d, u) ∷ e ∷ rest) h =
    walk-rank_at ring index (e ∷ rest) (omega arith)

mod_below : (a n : ℕ) → 0 < n → a % n < n
mod_below a n h = omega arith

by_turns-rank_at :
    (seq : ℕ) (ring : KeySet ℤ)
    → 0 < length ring
    → by_turns seq ring ≡ rank_at (seq % length ring) ring
unfolding by_turns
by_turns-rank_at seq [] h = ground arith
by_turns-rank_at seq ((d, u) ∷ []) h =
    let none_left : seq % 1 ≡ 0 = omega arith in ap (λ i. rank_at i ((d, u) ∷ [])) (sym none_left)
by_turns-rank_at seq (p ∷ q ∷ rest) h =
    walk-rank_at (p ∷ q ∷ rest) (seq % length (p ∷ q ∷ rest)) (p ∷ q ∷ rest)
      (mod_below seq (length (p ∷ q ∷ rest)) (omega arith))

rank_at-contained :
    (index : ℕ) (ring : KeySet ℤ) → index < length ring → contains (rank_at index ring) ring ≡ true
unfolding contains
rank_at-contained index [] h = ground arith
rank_at-contained zero ((d, u) ∷ rest) h = ground (arith, eqb_ℤ_iff d d)
rank_at-contained (suc index) ((d, u) ∷ rest) h =
    ground (arith, rank_at-contained index rest (omega arith))

module _ (L : Links) where
  calc_among-turns :
      (rounds : List (List TableUpdate)) (seq : ℕ) (t : TableReceiver) (ring : KeySet ℤ)
      → t.use_routing_manager ≡ false
      → 0 < length ring
      → (calc_among L rounds seq t ring).1 ≡ rank_at (seq % length ring) ring
  unfolding calc_among
  calc_among-turns rounds seq t [] m h = ground arith
  calc_among-turns rounds seq t (p ∷ rest) m h = rw m (by_turns-rank_at seq (p ∷ rest) h)

  -- Without a routing manager and with some destination enabled, the destinations take turns: a
  -- fragment goes to the enabled destination at the place of its sequence ID modulo their number, so
  -- that all fragments of an event go to the same one.
  pub calc_dest-turns :
      (rounds : List (List TableUpdate)) (seq : ℕ) (d : DataSender L.Link)
      → d.table_receiver.use_routing_manager ≡ false
      → 0 < length d.enabled_destinations
      → ((calc_dest L rounds seq d).1
          ≡ rank_at (seq % length d.enabled_destinations) d.enabled_destinations)
        × (contains (calc_dest L rounds seq d).1 d.enabled_destinations ≡ true)
  unfolding calc_dest
  calc_dest-turns rounds seq d m h =
      let turn = calc_among-turns rounds seq d.table_receiver d.enabled_destinations m h in
      let n = length d.enabled_destinations in
      (
        turn,
        ap (λ r. contains r d.enabled_destinations) turn
            ∙ rank_at-contained (seq % n) d.enabled_destinations (mod_below seq n h),
      )
