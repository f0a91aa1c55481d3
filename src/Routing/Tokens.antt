-- ===== src/Routing/Tokens.antt =====
-- The tokens of free receivers: a list of ranks, and the same tokens counted by rank
-- (`sortTokens_`, `restoreUnusedTokens_` and `calculateMinimum_` of RoundRobin_policy.cc).
use artdaq.Prelude.{
  ℕ, ltb, if◌then◌else◌, length, replicate, zero, suc, ◌+◌, ◌-◌, ◌^◌, ◌<◌, ◌≡◌, refl, Bool, none,
  some, List, [], ◌∷◌, ◌++◌, arith, All, ◌∙◌,
}
use artdaq.Prelude.Int.{ℤ, neg_part, ltb_ℤ, eqb_ℤ, pos, eqb_ℤ_iff, pos_part}
use artdaq.Prelude.Words.{u64, to_int, to_u64}
use artdaq.Map.{lookup, Assoc, insert, Above, IsSorted, KeySet}
use artdaq.Prelude.Ord.{int_ord}
use artdaq.Map.Laws.{lookup-insert, IsSorted-insert}

-- The protected state that RoutingManagerPolicy shares with the policies that derive from it.
pub record TokenState : Type 0 where
  pub tokens : List ℤ
  pub tokens_used_since_last_update : ℕ
  pub next_sequence_id : ℕ
  pub receiver_ranks : KeySet ℤ

abbrev pub get_receiver_count : TokenState → ℕ
get_receiver_count s = length s.receiver_ranks

-- How many tokens a rank has in a list.
unfoldable pub count : ℤ → List ℤ → ℕ
count r [] = 0
count r (x ∷ xs) = (if eqb_ℤ x r then 1 else 0) + count r xs

-- `m[r]` of a `std::map<int, int>`. The counts never fall below 0, so they are natural numbers.
unfoldable pub tokens_at : ℤ → Assoc ℤ ℕ → ℕ
tokens_at r m = elim (lookup r m) [ none ↦ 0 | some n ↦ n ]

unfoldable pub sort_from : Assoc ℤ ℕ → List ℤ → Assoc ℤ ℕ
sort_from m [] = m
sort_from m (t ∷ ts) = sort_from (insert t (tokens_at t m + 1) m) ts

-- `sortTokens_`: the counts; the caller clears the list.
unfoldable pub sort_tokens : List ℤ → Assoc ℤ ℕ
sort_tokens = sort_from []

-- `restoreUnusedTokens_` on an empty token list.
unfoldable pub restore_unused_tokens : Assoc ℤ ℕ → List ℤ
restore_unused_tokens [] = []
restore_unused_tokens ((r, n) ∷ m) = replicate n r ++ restore_unused_tokens m

-- `calculateMinimum_`: the sum is taken on `size_t` and cut down to an `int`.
unfoldable pub calculate_minimum : ℤ → ℕ → ℤ
calculate_minimum minimum_participants receiver_count =
    let minimum =
      if ltb_ℤ (pos 0) minimum_participants
      then minimum_participants
      else to_int (u64 (receiver_count + to_u64 minimum_participants)) in
    if ltb_ℤ minimum (pos 1) then pos 1 else minimum

-- `table.size() < static_cast<size_t>(minimum)`
abbrev pub too_few : Assoc ℤ ℕ → ℤ → Bool
too_few table minimum = ltb (length table) (to_u64 minimum)

-- The minimum of a configured `int` is at least 1 as a `size_t`.
pub to_u64-calculate_minimum :
    (p : ℤ) (n : ℕ) → pos_part p < 2 ^ 31 → 0 < to_u64 (calculate_minimum p n)
unfolding calculate_minimum
to_u64-calculate_minimum p n h = ground arith

-- Below 2 ^ 31 receivers the minimum is the configured number, or so many fewer than all receivers
-- as configured, but at least 1.
pub calculate_minimum_lem :
    (p : ℤ) (n : ℕ)
    → n < 2 ^ 31
    → neg_part p < 2 ^ 31
    → calculate_minimum p n
      ≡ (if ltb_ℤ (pos 0) p then p else if ltb (neg_part p) n then pos (n - neg_part p) else pos 1)
unfolding calculate_minimum
calculate_minimum_lem p n h k = ground arith

pub count-append : (r : ℤ) (xs ys : List ℤ) → count r (xs ++ ys) ≡ count r xs + count r ys
unfolding count
count-append r [] ys = omega arith
count-append r (x ∷ xs) ys = omega (arith, count-append r xs ys)

pub count-replicate : (r x : ℤ) (n : ℕ) → count r (replicate n x) ≡ (if eqb_ℤ x r then n else 0)
unfolding count
count-replicate r x zero = ground arith
count-replicate r x (suc n) = ground (arith, count-replicate r x n)

pub tokens_at-Above : (r : ℤ) (m : Assoc ℤ ℕ) → Above r m → tokens_at r m ≡ 0
unfolding tokens_at lookup
tokens_at-Above r [] a = refl
tokens_at-Above r ((k, n) ∷ m) a =
    ground (arith, eqb_ℤ_iff k r, int_ord.lt_irrefl r, tokens_at-Above r m a.1)

tokens_at-cons :
    (r k : ℤ) (n : ℕ) (m : Assoc ℤ ℕ) (rest : ℕ)
    → Above k m
    → rest ≡ tokens_at r m
    → count r (replicate n k) + rest ≡ tokens_at r ((k, n) ∷ m)
unfolding tokens_at lookup
tokens_at-cons r k n m rest a h =
    ground (arith, count-replicate r k n, eqb_ℤ_iff k r, tokens_at-Above k m a)

-- A table of counts in order holds as many tokens of a rank as its entry says.
pub count-restore_unused_tokens :
    (r : ℤ) (m : Assoc ℤ ℕ) → IsSorted m → count r (restore_unused_tokens m) ≡ tokens_at r m
unfolding restore_unused_tokens
count-restore_unused_tokens r [] s = unfold count tokens_at lookup in refl
count-restore_unused_tokens r ((k, n) ∷ m) s =
    count-append r (replicate n k) (restore_unused_tokens m)
    ∙ tokens_at-cons r k n m (count r (restore_unused_tokens m)) s.0
        (count-restore_unused_tokens r m s.1)

pub tokens_at-insert :
    (r k : ℤ) (n : ℕ) (m : Assoc ℤ ℕ)
    → tokens_at r (insert k n m) ≡ (if eqb_ℤ k r then n else tokens_at r m)
unfolding tokens_at
tokens_at-insert r k n m = ground (arith, lookup-insert r k n m)

sort_from-tokens_at :
    (r : ℤ) (m : Assoc ℤ ℕ) (ts : List ℤ)
    → tokens_at r (sort_from m ts) ≡ tokens_at r m + count r ts
unfolding sort_from count
sort_from-tokens_at r m [] = omega arith
sort_from-tokens_at r m (t ∷ ts) = ground (
  arith,
  sort_from-tokens_at r (insert t (tokens_at t m + 1) m) ts,
  tokens_at-insert r t (tokens_at t m + 1) m,
  eqb_ℤ_iff t r,
)

sort_from-IsSorted : (m : Assoc ℤ ℕ) (ts : List ℤ) → IsSorted m → IsSorted (sort_from m ts)
unfolding sort_from
sort_from-IsSorted m [] s = s
sort_from-IsSorted m (t ∷ ts) s =
    sort_from-IsSorted (insert t (tokens_at t m + 1) m) ts
      (IsSorted-insert t (tokens_at t m + 1) m s)

pub sort_tokens-IsSorted : (ts : List ℤ) → IsSorted (sort_tokens ts)
unfolding sort_tokens
sort_tokens-IsSorted ts = sort_from-IsSorted [] ts tt

-- The table counts the tokens of each rank.
pub tokens_at-sort_tokens : (r : ℤ) (ts : List ℤ) → tokens_at r (sort_tokens ts) ≡ count r ts
unfolding sort_tokens
tokens_at-sort_tokens r ts = sort_from-tokens_at r [] ts ∙ unfold tokens_at lookup in omega arith

-- Sorting and restoring keeps the number of tokens of each rank.
pub restore-sort :
    (r : ℤ) (ts : List ℤ) → count r (restore_unused_tokens (sort_tokens ts)) ≡ count r ts
restore-sort r ts =
    count-restore_unused_tokens r (sort_tokens ts) (sort_tokens-IsSorted ts)
    ∙ tokens_at-sort_tokens r ts

-- Every entry of the table has a token.
abbrev pub IsPositive : Assoc ℤ ℕ → Type 0
IsPositive = All (λ p. 0 < p.1)

insert-IsPositive :
    (k : ℤ) (n : ℕ) (m : Assoc ℤ ℕ) → 0 < n → IsPositive m → IsPositive (insert k n m)
unfolding insert
insert-IsPositive k n [] h p = (h, tt)
insert-IsPositive k n ((j, c) ∷ m) h p = ground (arith, insert-IsPositive k n m h p.1)

sort_from-IsPositive : (m : Assoc ℤ ℕ) (ts : List ℤ) → IsPositive m → IsPositive (sort_from m ts)
unfolding sort_from
sort_from-IsPositive m [] p = p
sort_from-IsPositive m (t ∷ ts) p =
    sort_from-IsPositive (insert t (tokens_at t m + 1) m) ts
      (insert-IsPositive t (tokens_at t m + 1) m (omega arith) p)

pub sort_tokens-IsPositive : (ts : List ℤ) → IsPositive (sort_tokens ts)
unfolding sort_tokens
sort_tokens-IsPositive ts = sort_from-IsPositive [] ts tt
