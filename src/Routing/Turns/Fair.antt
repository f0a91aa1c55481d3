-- ===== src/Routing/Turns/Fair.antt =====
-- The turns of RoundRobin_policy.cc serve the receivers evenly.
use artdaq.Prelude.Ord.{int_ord}
use artdaq.Routing.Packet.{destinations}
use artdaq.Routing.Tokens.{count, tokens_at, tokens_at-Above, IsPositive, too_few}
use artdaq.Routing.Turns.{
  turn, turns, turn-IsPositive, turn-destinations, count-destinations-append, turn-IsSorted,
}
use artdaq.Prelude.{
  ltb, if◌then◌else◌, ℕ, zero, suc, ◌+◌, ◌-◌, ◌≤◌, ◌<◌, ◌≡◌, refl, [], ◌∷◌, arith, Bool-cases, inl,
  inr,
}
use artdaq.Prelude.Int.{eqb_ℤ_iff, ℤ}
use artdaq.Prelude.Words.{u64}
use artdaq.Map.{Assoc, lookup, IsSorted, keys}

count-keys :
    (r : ℤ) (table : Assoc ℤ ℕ)
    → IsSorted table
    → IsPositive table
    → count r (keys table) ≡ (if ltb 0 (tokens_at r table) then 1 else 0)
unfolding count tokens_at lookup
count-keys r [] s p = refl
count-keys r ((k, n) ∷ table) s p =
    ground (arith, count-keys r table s.1 p.1, eqb_ℤ_iff k r, tokens_at-Above k table s.0)

turn-tokens_at :
    (r : ℤ) (next : ℕ) (table : Assoc ℤ ℕ)
    → IsSorted table
    → tokens_at r (turn next table).left ≡ tokens_at r table - 1
unfolding turn tokens_at lookup
turn-tokens_at r next [] s = refl
turn-tokens_at r next ((k, n) ∷ table) s =
    ground (
      arith,
      turn-tokens_at r (u64 (next + 1)) table s.1,
      eqb_ℤ_iff k r,
      tokens_at-Above k table s.0,
    )

turns-tokens_at :
    (fuel : ℕ) (minimum : ℤ) (next : ℕ) (table : Assoc ℤ ℕ) (r : ℤ)
    → IsSorted table
    → tokens_at r (turns fuel minimum next table).left ≤ tokens_at r table
unfolding turns
turns-tokens_at zero minimum next table r s = omega arith
turns-tokens_at (suc fuel) minimum next table r s =
    let first = turn next table in
    elim (Bool-cases (too_few table minimum)) [
      | inl few ↦ rw few (omega arith)
      | inr more ↦ rw more (
          omega (
            arith,
            turn-tokens_at r next table s,
            turns-tokens_at fuel minimum first.next first.left r (turn-IsSorted next table s),
          ))
    ]

-- A rank with a token in the table gets one row of a turn, another rank at most one.
turn-fair :
    (next : ℕ) (table : Assoc ℤ ℕ) (r q : ℤ)
    → IsSorted table
    → IsPositive table
    → 0 < tokens_at r table
    → count q (destinations (turn next table).added)
      ≤ count r (destinations (turn next table).added)
turn-fair next table r q s p h =
    rw (turn-destinations next table)
      (ground (arith, count-keys r table s p, count-keys q table s p))

-- A receiver that still has tokens in the end got as many rows as any other receiver, or more: each
-- full turn served it.
pub turns-fair :
    (fuel : ℕ) (minimum : ℤ) (next : ℕ) (table : Assoc ℤ ℕ) (r q : ℤ)
    → IsSorted table
    → IsPositive table
    → 0 < tokens_at r (turns fuel minimum next table).left
    → count q (destinations (turns fuel minimum next table).added)
      ≤ count r (destinations (turns fuel minimum next table).added)
unfolding turns
turns-fair zero minimum next table r q s p h = unfold count in omega arith
turns-fair (suc fuel) minimum next table r q s p h =
    let first = turn next table in
    let sorted = turn-IsSorted next table s in
    elim (Bool-cases (too_few table minimum)) [
      | inl few ↦ rw few (unfold count in omega arith)
      | inr more ↦
          let left : 0 < tokens_at r (turns fuel minimum first.next first.left).left =
            rw (more, turns) at h in
          rw more (
            omega (
              arith,
              turn-fair next table r q s p (
                  omega (
                    arith,
                    turn-tokens_at r next table s,
                    turns-tokens_at fuel minimum first.next first.left r sorted,
                  )),
              turns-fair fuel minimum first.next first.left r q sorted (turn-IsPositive next table)
                  left,
              count-destinations-append r first.added
                  (turns fuel minimum first.next first.left).added,
              count-destinations-append q first.added
                  (turns fuel minimum first.next first.left).added,
            ))
    ]
