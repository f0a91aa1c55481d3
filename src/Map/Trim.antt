-- ===== src/Map/Trim.antt =====
-- `while (m.size() > max) m.erase(m.begin())`: an ordered container that keeps its last entries.
use artdaq.Prelude.{
  ℕ, ◌≤◌, ◌≡◌, refl, ap, [], ◌∷◌, ◌++◌, if◌then◌else◌, length, ltb, arith, Bool-cases, inl, inr,
  All,
}
use artdaq.Prelude.Ord.{Ord}
use artdaq.Map.{Assoc, Above, IsSorted}

module _ {ℓ κ} {K : Type ℓ} {V : Type κ} where
  unfoldable pub keep_last : ℕ → Assoc K V → Assoc K V
  keep_last max [] = []
  keep_last max (p ∷ m) =
      let further = keep_last max m in if ltb max (length (p ∷ m)) then further else p ∷ m

  -- Nothing more is erased than is over the size.
  pub length-keep_last-exact :
      (max : ℕ) (m : Assoc K V)
      → length (keep_last max m) ≡ (if ltb max (length m) then max else length m)
  unfolding keep_last
  length-keep_last-exact max [] = ground arith
  length-keep_last-exact max (p ∷ m) = ground (arith, length-keep_last-exact max m)

  pub length-keep_last : (max : ℕ) (m : Assoc K V) → length (keep_last max m) ≤ max
  unfolding keep_last
  length-keep_last max [] = omega arith
  length-keep_last max (p ∷ m) = ground (arith, length-keep_last max m)

  pub keep_last-fits : (max : ℕ) (m : Assoc K V) → length m ≤ max → keep_last max m ≡ m
  unfolding keep_last
  keep_last-fits max [] h = refl
  keep_last-fits max (p ∷ m) h = ground arith

module _ {ℓ κ} {K : Type ℓ} {V : Type κ} ⦃o : Ord K⦄ where
  -- Every entry of `dropped` is below every entry of `kept`.
  abbrev pub AllBelow : Assoc K V → Assoc K V → Type 0
  AllBelow dropped kept = All (λ p. Above p.0 kept) dropped

  Above-keep_last : (k : K) (max : ℕ) (m : Assoc K V) → Above k m → Above k (keep_last max m)
  unfolding keep_last
  Above-keep_last k max [] a = tt
  Above-keep_last k max ((j, v) ∷ m) a = ground (arith, Above-keep_last k max m a.1, a.0, a.1)

  pub IsSorted-keep_last : (max : ℕ) (m : Assoc K V) → IsSorted m → IsSorted (keep_last max m)
  unfolding keep_last
  IsSorted-keep_last max [] s = tt
  IsSorted-keep_last max ((j, v) ∷ m) s = ground (arith, IsSorted-keep_last max m s.1, s.0, s.1)

  -- What goes stood at the front, below all that stays.
  pub keep_last-split :
      (max : ℕ) (m : Assoc K V)
      → IsSorted m
      → (dropped : Assoc K V) × (m ≡ dropped ++ keep_last max m)
        × AllBelow dropped (keep_last max m)
  unfolding keep_last
  keep_last-split max [] s = ([], refl, tt)
  keep_last-split max ((j, v) ∷ m) s = elim (Bool-cases (ltb max (length ((j, v) ∷ m)))) [
    | inl over ↦
        let further = keep_last-split max m s.1 in
        rw over (
          (j, v) ∷ further.0,
          ap (λ r. (j, v) ∷ r) further.1,
          (Above-keep_last j max m s.0, further.2),
        )
    | inr fits ↦ rw fits ([], refl, tt)
  ]
