-- ===== src/Map.antt =====
-- `std::map`, `std::set` and `std::unordered_map` as association lists. `insert` keeps the keys of an
-- ordered container in increasing order, so the head of the list is `begin()`.
pub mod Laws
pub mod Trim
use artdaq.Prelude.{
  ◌≡◌, Bool, true, false, ◌||◌, Option, none, some, List, [], ◌∷◌, if◌then◌else◌, map,
}
use artdaq.Prelude.Ord.{Ord}

-- The pairs of a map in the order of its iterator.
abbrev pub Assoc {ℓ κ} : Type ℓ → Type κ → Type (ℓ ⊔ κ)
Assoc K V = List (K × V)

module _ {ℓ κ} {K : Type ℓ} {V : Type κ} ⦃o : Ord K⦄ where
  -- `m.at(k)`
  unfoldable pub lookup : K → Assoc K V → Option V
  lookup k [] = none
  lookup k ((j, v) ∷ m) = if o.beq j k then some v else lookup k m

  -- `m.count(k) != 0`
  unfoldable pub contains : K → Assoc K V → Bool
  contains k [] = false
  contains k ((j, v) ∷ m) = o.beq j k || contains k m

  -- `m[k] = v`
  unfoldable pub insert : K → V → Assoc K V → Assoc K V
  insert k v [] = (k, v) ∷ []
  insert k v ((j, w) ∷ m) =
      if o.lt k j
      then (k, v) ∷ (j, w) ∷ m
      else if o.beq j k
      then (k, v) ∷ m
      else (j, w) ∷ insert k v m

  -- `m.erase(k)`
  unfoldable pub erase : K → Assoc K V → Assoc K V
  erase k [] = []
  erase k ((j, v) ∷ m) = if o.beq j k then erase k m else (j, v) ∷ erase k m

  -- Every key of the map is above `k`.
  abbrev pub Above : K → Assoc K V → Type 0
  Above k [] = Unit
  Above k ((j, v) ∷ m) = (o.lt k j ≡ true) × Above k m

  -- The keys are in increasing order.
  abbrev pub IsSorted : Assoc K V → Type 0
  IsSorted [] = Unit
  IsSorted ((j, v) ∷ m) = Above j m × IsSorted m

abbrev pub keys {ℓ κ} : {K : Type ℓ} {V : Type κ} → Assoc K V → List K
keys = map (λ p. p.0)

-- A `std::set` is a map to nothing.
abbrev pub KeySet {ℓ} : Type ℓ → Type ℓ
KeySet K = Assoc K (Unit {0})

-- `rbegin()->first`, or `d` where the map is empty.
abbrev pub last_key {ℓ κ} : {K : Type ℓ} {V : Type κ} → K → Assoc K V → K
last_key d [] = d
last_key d ((k, v) ∷ m) = last_key k m
