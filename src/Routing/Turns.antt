-- ===== src/Routing/Turns.antt =====
-- The loop of `RoundRobinPolicy::CreateRoutingTable` (RoundRobin_policy.cc): full turns through the
-- receivers that have tokens.
pub mod Fair
use mathlib.Core.List.{map-append}
use artdaq.Prelude.Ord.{int_ord}
use artdaq.Routing.Packet.{RoutingPacket, entry, Consecutive, destinations, Consecutive-append}
use artdaq.Routing.Tokens.{
  count, restore_unused_tokens, too_few, count-append, count-replicate, IsPositive, tokens_at,
  sort_from, sort_tokens, tokens_at-Above,
}
use artdaq.Prelude.{
  ◌==◌, if◌then◌else◌, length, replicate, ℕ, zero, suc, ◌+◌, ◌-◌, ◌<◌, ◌≡◌, refl, ap, true, [], ◌∷◌,
  ◌++◌, arith, Bool-cases, ◌∙◌, inl, inr, List,
}
use artdaq.Prelude.Int.{eqb_ℤ, ℤ, ltb_ℤ, eqb_ℤ_iff}
use artdaq.Prelude.Words.{u64, to_u64}
use artdaq.Map.{Assoc, keys, Above, IsSorted, lookup, insert}
use artdaq.Map.Laws.{Above-trans, IsSorted-insert}

-- What a loop leaves behind: the rows that it added, the next sequence ID and the table.
pub record Turned : Type 0 where
  pub added : RoutingPacket
  pub next : ℕ
  pub left : Assoc ℤ ℕ

-- One turn, the `for` loop: a row for each entry, which loses a token and goes when it has none.
unfoldable pub turn : ℕ → Assoc ℤ ℕ → Turned
turn next [] = record { added = []; next = next; left = [] }
turn next ((r, n) ∷ table) =
    let rest = turn (u64 (next + 1)) table in
    record {
      added = entry next r ∷ rest.added;
      next = rest.next;
      left = if n - 1 == 0 then rest.left else (r, n - 1) ∷ rest.left;
    }

-- The `while` loop, on fuel: turns, until fewer than the minimum of receivers have a token.
unfoldable pub turns : ℕ → ℤ → ℕ → Assoc ℤ ℕ → Turned
turns zero minimum next table = record { added = []; next = next; left = table }
turns (suc fuel) minimum next table =
    let first = turn next table in
    let rest = turns fuel minimum first.next first.left in
    let all = record rest { added = first.added ++ rest.added } in
    if too_few table minimum then record { added = []; next = next; left = table } else all

pub turn-Consecutive :
    (next : ℕ) (table : Assoc ℤ ℕ) → Consecutive next (turn next table).added (turn next table).next
unfolding turn
turn-Consecutive next [] = refl
turn-Consecutive next ((r, n) ∷ table) = (refl, turn-Consecutive (u64 (next + 1)) table)

pub turn-IsPositive : (next : ℕ) (table : Assoc ℤ ℕ) → IsPositive (turn next table).left
unfolding turn
turn-IsPositive next [] = tt
turn-IsPositive next ((r, n) ∷ table) = ground (arith, turn-IsPositive (u64 (next + 1)) table)

-- A turn moves one token of each entry into the rows.
pub turn-destinations :
    (next : ℕ) (table : Assoc ℤ ℕ) → destinations (turn next table).added ≡ keys table
unfolding turn
turn-destinations next [] = refl
turn-destinations next ((r, n) ∷ table) = ap (◌∷◌ r) (turn-destinations (u64 (next + 1)) table)

-- The tokens of a rank in the list that a table stands for.
abbrev pub held : ℤ → Assoc ℤ ℕ → ℕ
held r table = count r (restore_unused_tokens table)

pub held-cons :
    (r k : ℤ) (n : ℕ) (table : Assoc ℤ ℕ)
    → held r ((k, n) ∷ table) ≡ (if eqb_ℤ k r then n else 0) + held r table
unfolding restore_unused_tokens
held-cons r k n table =
    omega
      (arith, count-append r (replicate n k) (restore_unused_tokens table), count-replicate r k n)

turn-held :
    (r : ℤ) (next : ℕ) (table : Assoc ℤ ℕ)
    → IsPositive table
    → held r table ≡ count r (destinations (turn next table).added) + held r (turn next table).left
unfolding turn count
turn-held r next [] p = omega arith
turn-held r next ((k, n) ∷ table) p = ground (
  arith,
  turn-held r (u64 (next + 1)) table p.1,
  held-cons r k n table,
  held-cons r k (n - 1) (turn (u64 (next + 1)) table).left,
)

pub count-destinations-append :
    (r : ℤ) (es fs : RoutingPacket)
    → count r (destinations (es ++ fs)) ≡ count r (destinations es) + count r (destinations fs)
count-destinations-append r es fs =
    ap (count r) (map-append _ es fs) ∙ count-append r (destinations es) (destinations fs)

-- The loop moves tokens from the table into the rows, and neither loses nor invents one.
pub turns-held :
    (r : ℤ) (fuel : ℕ) (minimum : ℤ) (next : ℕ) (table : Assoc ℤ ℕ)
    → IsPositive table
    → held r table
      ≡ count r (destinations (turns fuel minimum next table).added)
        + held r (turns fuel minimum next table).left
unfolding turns count
turns-held r zero minimum next table p = omega arith
turns-held r (suc fuel) minimum next table p =
    let first = turn next table in
    elim (Bool-cases (too_few table minimum)) [
      | inl few ↦ rw few (omega arith)
      | inr more ↦ rw more (
          omega (
            arith,
            turn-held r next table p,
            turns-held r fuel minimum first.next first.left (turn-IsPositive next table),
            count-destinations-append r first.added
                (turns fuel minimum first.next first.left).added,
          ))
    ]

-- The rows of the loop carry consecutive sequence IDs.
pub turns-Consecutive :
    (fuel : ℕ) (minimum : ℤ) (next : ℕ) (table : Assoc ℤ ℕ)
    → Consecutive next (turns fuel minimum next table).added (turns fuel minimum next table).next
unfolding turns
turns-Consecutive zero minimum next table = refl
turns-Consecutive (suc fuel) minimum next table =
    let first = turn next table in
    elim (Bool-cases (too_few table minimum)) [
      | inl few ↦ rw few refl
      | inr more ↦ rw more (
          Consecutive-append next first.added first.next _ _ (turn-Consecutive next table)
            (turns-Consecutive fuel minimum first.next first.left))
    ]

-- How many tokens a table holds.
unfoldable pub total : Assoc ℤ ℕ → ℕ
total [] = 0
total ((r, n) ∷ table) = n + total table

turn-total :
    (next : ℕ) (table : Assoc ℤ ℕ)
    → IsPositive table
    → total (turn next table).left + length table ≡ total table
unfolding turn total
turn-total next [] p = refl
turn-total next ((r, n) ∷ table) p = ground (arith, turn-total (u64 (next + 1)) table p.1)

-- More fuel than tokens is enough: the loop ends by its test.
pub turns-ends :
    (fuel : ℕ) (minimum : ℤ) (next : ℕ) (table : Assoc ℤ ℕ)
    → 0 < to_u64 minimum
    → IsPositive table
    → total table < fuel
    → too_few (turns fuel minimum next table).left minimum ≡ true
unfolding turns
turns-ends zero minimum next table m p h = elim h [ ]
turns-ends (suc fuel) minimum next table m p h =
    let first = turn next table in
    elim (Bool-cases (too_few table minimum)) [
      | inl few ↦ rw few few
      | inr more ↦ rw more (
          turns-ends fuel minimum first.next first.left m (turn-IsPositive next table)
            (ground (arith, turn-total next table p)))
    ]

turn-Above : (k : ℤ) (next : ℕ) (table : Assoc ℤ ℕ) → Above k table → Above k (turn next table).left
unfolding turn
turn-Above k next [] a = tt
turn-Above k next ((r, n) ∷ table) a = ground (arith, turn-Above k (u64 (next + 1)) table a.1)

pub turn-IsSorted :
    (next : ℕ) (table : Assoc ℤ ℕ) → IsSorted table → IsSorted (turn next table).left
unfolding turn
turn-IsSorted next [] s = tt
turn-IsSorted next ((r, n) ∷ table) s =
    ground
      (arith, turn-IsSorted (u64 (next + 1)) table s.1, turn-Above r (u64 (next + 1)) table s.0)

pub turns-IsSorted :
    (fuel : ℕ) (minimum : ℤ) (next : ℕ) (table : Assoc ℤ ℕ)
    → IsSorted table
    → IsSorted (turns fuel minimum next table).left
unfolding turns
turns-IsSorted zero minimum next table s = s
turns-IsSorted (suc fuel) minimum next table s =
    let first = turn next table in
    elim (Bool-cases (too_few table minimum)) [
      | inl few ↦ rw few s
      | inr more ↦
          rw more (turns-IsSorted fuel minimum first.next first.left (turn-IsSorted next table s))
    ]

pub turns-IsPositive :
    (fuel : ℕ) (minimum : ℤ) (next : ℕ) (table : Assoc ℤ ℕ)
    → IsPositive table
    → IsPositive (turns fuel minimum next table).left
unfolding turns
turns-IsPositive zero minimum next table p = p
turns-IsPositive (suc fuel) minimum next table p =
    let first = turn next table in
    elim (Bool-cases (too_few table minimum)) [
      | inl few ↦ rw few p
      | inr more ↦
          rw more (turns-IsPositive fuel minimum first.next first.left (turn-IsPositive next table))
    ]

total-insert :
    (k : ℤ) (v : ℕ) (m : Assoc ℤ ℕ)
    → IsSorted m
    → total (insert k v m) + tokens_at k m ≡ total m + v
unfolding total insert tokens_at lookup
total-insert k v [] s = omega arith
total-insert k v ((j, n) ∷ m) s =
    ground (arith, total-insert k v m s.1, eqb_ℤ_iff j k, int_ord.lt_irrefl k, not_before k j n m s)
  where
    not_before :
        (k j : ℤ) (n : ℕ) (m : Assoc ℤ ℕ)
        → IsSorted ((j, n) ∷ m)
        → ltb_ℤ k j ≡ true
        → tokens_at k m ≡ 0
    not_before k j n m s h = tokens_at-Above k m (Above-trans k j m h s.0)

total-sort_from :
    (m : Assoc ℤ ℕ) (ts : List ℤ) → IsSorted m → total (sort_from m ts) ≡ total m + length ts
unfolding sort_from
total-sort_from m [] s = omega arith
total-sort_from m (t ∷ ts) s = omega (
  arith,
  total-sort_from (insert t (tokens_at t m + 1) m) ts (IsSorted-insert t (tokens_at t m + 1) m s),
  total-insert t (tokens_at t m + 1) m s,
)

-- The table counts all tokens.
pub total-sort_tokens : (ts : List ℤ) → total (sort_tokens ts) ≡ length ts
unfolding sort_tokens
total-sort_tokens ts = total-sort_from [] ts tt ∙ unfold total in omega arith
