-- ===== src/Routing/Restore.antt =====
-- `sortTokens_` undoes `restoreUnusedTokens_` (RoundRobin_policy.cc).
use artdaq.Prelude.Ord.{int_ord}
use mathlib.Core.List.{append-nil, append_assoc}
use artdaq.Routing.Tokens.{tokens_at, sort_from, sort_tokens, restore_unused_tokens, IsPositive}
use artdaq.Prelude.{
  replicate, All, ℕ, zero, suc, ◌+◌, ◌<◌, ◌≡◌, refl, sym, ap, ◌∙◌, true, false, List, [], ◌∷◌, ◌++◌,
  arith,
}
use artdaq.Prelude.Int.{ltb_ℤ, eqb_ℤ, eqb_ℤ_iff, ℤ}
use artdaq.Map.{Assoc, lookup, insert, Above, IsSorted}

-- Every key of the table is below `r`.
abbrev Below : ℤ → Assoc ℤ ℕ → Type 0
Below r = All (λ p. ltb_ℤ p.0 r ≡ true)

irrefl_eq : (a b : ℤ) → ltb_ℤ a b ≡ true → (eqb_ℤ a b ≡ false) × (ltb_ℤ b a ≡ false)
irrefl_eq a b h = (ground (arith, eqb_ℤ_iff a b, int_ord.lt_irrefl b), ground arith)

insert-Below : (r : ℤ) (n : ℕ) (m : Assoc ℤ ℕ) → Below r m → insert r n m ≡ m ++ (r, n) ∷ []
unfolding insert
insert-Below r n [] b = refl
insert-Below r n ((k, c) ∷ m) b = ground (arith, irrefl_eq k r b.0, insert-Below r n m b.1)

insert-last :
    (r : ℤ) (n c : ℕ) (m : Assoc ℤ ℕ) → Below r m → insert r n (m ++ (r, c) ∷ []) ≡ m ++ (r, n) ∷ []
unfolding insert
insert-last r n c [] b = ground (arith, int_ord.lt_irrefl r, eqb_ℤ_iff r r)
insert-last r n c ((k, d) ∷ m) b = ground (arith, irrefl_eq k r b.0, insert-last r n c m b.1)

tokens_at-Below : (r : ℤ) (m : Assoc ℤ ℕ) → Below r m → tokens_at r m ≡ 0
unfolding tokens_at lookup
tokens_at-Below r [] b = refl
tokens_at-Below r ((k, c) ∷ m) b = ground (arith, irrefl_eq k r b.0, tokens_at-Below r m b.1)

tokens_at-last : (r : ℤ) (c : ℕ) (m : Assoc ℤ ℕ) → Below r m → tokens_at r (m ++ (r, c) ∷ []) ≡ c
unfolding tokens_at lookup
tokens_at-last r c [] b = ground (arith, eqb_ℤ_iff r r)
tokens_at-last r c ((k, d) ∷ m) b = ground (arith, irrefl_eq k r b.0, tokens_at-last r c m b.1)

-- Counting `n` more tokens of the rank that stands last.
sort_from-last :
    (r : ℤ) (n c : ℕ) (m : Assoc ℤ ℕ) (ts : List ℤ)
    → Below r m
    → sort_from (m ++ (r, c) ∷ []) (replicate n r ++ ts) ≡ sort_from (m ++ (r, c + n) ∷ []) ts
unfolding sort_from
sort_from-last r zero c m ts b = ap (λ k. sort_from (m ++ (r, k) ∷ []) ts) (omega arith)
sort_from-last r (suc n) c m ts b =
    ap (λ w. sort_from w (replicate n r ++ ts))
      (rw (tokens_at-last r c m b) (insert-last r (c + 1) c m b))
    ∙ sort_from-last r n (c + 1) m ts b
    ∙ ap (λ k. sort_from (m ++ (r, k) ∷ []) ts) (omega arith)

sort_from-block :
    (r : ℤ) (n : ℕ) (m : Assoc ℤ ℕ) (ts : List ℤ)
    → 0 < n
    → Below r m
    → sort_from m (replicate n r ++ ts) ≡ sort_from (m ++ (r, n) ∷ []) ts
unfolding sort_from
sort_from-block r zero m ts h b = elim h [ ]
sort_from-block r (suc n) m ts h b =
    ap (λ w. sort_from w (replicate n r ++ ts)) (rw (tokens_at-Below r m b) (insert-Below r 1 m b))
    ∙ sort_from-last r n 1 m ts b
    ∙ ap (λ k. sort_from (m ++ (r, k) ∷ []) ts) (omega arith)

Below-append : (r : ℤ) (m w : Assoc ℤ ℕ) → Below r m → Below r w → Below r (m ++ w)
Below-append r [] w b c = c
Below-append r (p ∷ m) w b c = (b.0, Below-append r m w b.1 c)

-- Every key of `m` is below every key of `t`.
abbrev Before : Assoc ℤ ℕ → Assoc ℤ ℕ → Type 0
Before m = All (λ p. Below p.0 m)

Before-snoc :
    (m : Assoc ℤ ℕ) (k : ℤ) (n : ℕ) (t : Assoc ℤ ℕ)
    → Above k t
    → Before m t
    → Before (m ++ (k, n) ∷ []) t
Before-snoc m k n [] a b = tt
Before-snoc m k n ((j, c) ∷ t) a b =
    (Below-append j m ((k, n) ∷ []) b.0 (a.0, tt), Before-snoc m k n t a.1 b.1)

sort_from-restore :
    (m t : Assoc ℤ ℕ)
    → Before m t
    → IsSorted t
    → IsPositive t
    → sort_from m (restore_unused_tokens t) ≡ m ++ t
unfolding restore_unused_tokens
sort_from-restore m [] b s p = unfold sort_from in sym (append-nil m)
sort_from-restore m ((k, n) ∷ t) b s p =
    sort_from-block k n m (restore_unused_tokens t) p.0 b.0
    ∙ sort_from-restore (m ++ (k, n) ∷ []) t (Before-snoc m k n t s.0 b.1) s.1 p.1
    ∙ append_assoc m ((k, n) ∷ []) t

Before-nil : (t : Assoc ℤ ℕ) → Before [] t
Before-nil [] = tt
Before-nil (p ∷ t) = (tt, Before-nil t)

-- Restoring the tokens of a table and sorting them again gives the table back.
pub sort-restore :
    (t : Assoc ℤ ℕ) → IsSorted t → IsPositive t → sort_tokens (restore_unused_tokens t) ≡ t
unfolding sort_tokens
sort-restore t s p = sort_from-restore [] t (Before-nil t) s p
