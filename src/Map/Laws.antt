-- ===== src/Map/Laws.antt =====
-- The laws of the map operations, for every type of keys.
use artdaq.Prelude.{
  suc, ◌≤◌, ◌≡◌, refl, inl, inr, true, false, ◌||◌, none, some, [], ◌∷◌, if◌then◌else◌, arith,
  Bool-cases, length,
}
use artdaq.Prelude.Ord.{Ord}
use artdaq.Map.{Assoc, lookup, contains, insert, erase, Above, IsSorted}

module _ {ℓ κ} {K : Type ℓ} {V : Type κ} ⦃o : Ord K⦄ where
  pub lookup-insert :
      (i k : K) (v : V) (m : Assoc K V)
      → lookup i (insert k v m) ≡ (if o.beq k i then some v else lookup i m)
  unfolding lookup insert
  lookup-insert i k v [] = refl
  lookup-insert i k v ((j, w) ∷ m) =
      ground (arith, o.beq_iff j k, o.beq_iff k i, o.beq_iff j i, lookup-insert i k v m)

  pub lookup-erase :
      (i k : K) (m : Assoc K V) → lookup i (erase k m) ≡ (if o.beq k i then none else lookup i m)
  unfolding lookup erase
  lookup-erase i k [] = ground arith
  lookup-erase i k ((j, w) ∷ m) =
      ground (arith, o.beq_iff j k, o.beq_iff k i, o.beq_iff j i, lookup-erase i k m)

  pub contains-insert :
      (i k : K) (v : V) (m : Assoc K V) → contains i (insert k v m) ≡ (o.beq k i || contains i m)
  unfolding contains insert
  contains-insert i k v [] = refl
  contains-insert i k v ((j, w) ∷ m) =
      ground (arith, o.beq_iff j k, o.beq_iff k i, o.beq_iff j i, contains-insert i k v m)

  pub contains-erase :
      (i k : K) (m : Assoc K V)
      → contains i (erase k m) ≡ (if o.beq k i then false else contains i m)
  unfolding contains erase
  contains-erase i k [] = ground arith
  contains-erase i k ((j, w) ∷ m) =
      ground (arith, o.beq_iff j k, o.beq_iff k i, o.beq_iff j i, contains-erase i k m)

  pub Above-trans : (i j : K) (m : Assoc K V) → o.lt i j ≡ true → Above j m → Above i m
  Above-trans i j [] h a = tt
  Above-trans i j ((k, v) ∷ m) h a = (o.lt_trans i j k h a.0, Above-trans i j m h a.1)

  pub Above-insert :
      (i k : K) (v : V) (m : Assoc K V) → o.lt i k ≡ true → Above i m → Above i (insert k v m)
  unfolding insert
  Above-insert i k v [] h a = (h, tt)
  Above-insert i k v ((j, w) ∷ m) h a = ground (arith, Above-insert i k v m h a.1)

  pub IsSorted-insert : (k : K) (v : V) (m : Assoc K V) → IsSorted m → IsSorted (insert k v m)
  unfolding insert
  IsSorted-insert k v [] s = (tt, tt)
  IsSorted-insert k v ((j, w) ∷ m) s = elim (Bool-cases (o.lt k j)) [
    | inl below ↦ rw below ((below, Above-trans k j m below s.0), s)
    | inr above ↦ elim (Bool-cases (o.beq j k)) [
      | inl same ↦ rw (above, same) (rw ((o.beq_iff j k).0 same) at s.0, s.1)
      | inr other ↦
          rw (above, other)
            (
              Above-insert j k v m (o.lt_total k j above (flip other)) s.0,
              IsSorted-insert k v m s.1,
            )
    ]
  ]
    where
      flip : o.beq j k ≡ false → o.beq k j ≡ false
      flip h = ground (arith, o.beq_iff j k, o.beq_iff k j)

  Above-erase : (i k : K) (m : Assoc K V) → Above i m → Above i (erase k m)
  unfolding erase
  Above-erase i k [] a = tt
  Above-erase i k ((j, w) ∷ m) a = ground (arith, Above-erase i k m a.1)

  pub IsSorted-erase : (k : K) (m : Assoc K V) → IsSorted m → IsSorted (erase k m)
  unfolding erase
  IsSorted-erase k [] s = tt
  IsSorted-erase k ((j, w) ∷ m) s = ground (arith, Above-erase j k m s.0, IsSorted-erase k m s.1)

  pub length-insert : (k : K) (v : V) (m : Assoc K V) → length (insert k v m) ≤ suc (length m)
  unfolding insert
  length-insert k v [] = omega arith
  length-insert k v ((j, w) ∷ m) = ground (arith, length-insert k v m)

  -- A key below all others is not in the map.
  pub not_contains_of_Above : (k : K) (m : Assoc K V) → Above k m → contains k m ≡ false
  unfolding contains
  not_contains_of_Above k [] a = refl
  not_contains_of_Above k ((j, w) ∷ m) a =
      ground (arith, o.beq_iff j k, o.lt_irrefl k, not_contains_of_Above k m a.1)
