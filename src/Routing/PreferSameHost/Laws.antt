-- ===== src/Routing/PreferSameHost/Laws.antt =====
-- Which receiver PreferSameHost_policy.cc chooses.
use Prim.Native.String.{String}
use mathlib.Core.List.{Memᴰ}
use artdaq.Prelude.Ord.{int_ord}
use artdaq.Routing.PreferSameHost.{is_on, matching_ranks, max_rank_from}
use artdaq.Prelude.{
  ltb, if◌then◌else◌, ltb→lt, Bool-cases, All, ℕ, ◌≤◌, ◌<◌, ◌≡◌, refl, ap, ◌⊎◌, inl, inr, true,
  false, ◌&&◌, [], ◌∷◌, arith, ◌∙◌,
}
use artdaq.Prelude.Int.{eqb_ℤ_iff, ℤ, ltb_ℤ}
use artdaq.Map.{Assoc, lookup, contains, IsSorted, Above}
use artdaq.Routing.Tokens.{tokens_at, tokens_at-Above}
use artdaq.Map.Laws.{contains-insert}

-- Either the start is as good as every entry of the table, or the result is an entry that is better,
-- and no entry is better than it.
abbrev pub IsBest : ℤ → ℕ → Assoc ℤ ℕ → ℤ → Type 0
IsBest r0 n0 table w =
    ((w ≡ r0) × All (λ p. p.1 ≤ n0) table)
    ⊎ ((n : ℕ) × Memᴰ (w, n) table × (n0 < n) × All (λ p. p.1 ≤ n) table)

All-le_trans :
    (m n : ℕ) (table : Assoc ℤ ℕ) → m ≤ n → All (λ p. p.1 ≤ m) table → All (λ p. p.1 ≤ n) table
All-le_trans m n [] h a = tt
All-le_trans m n (p ∷ table) h a = (omega arith, All-le_trans m n table h a.1)

IsBest-cons :
    (r0 : ℤ) (n0 : ℕ) (r : ℤ) (n : ℕ) (table : Assoc ℤ ℕ) (w : ℤ)
    → IsBest (if ltb n0 n then r else r0) (if ltb n0 n then n else n0) table w
    → IsBest r0 n0 ((r, n) ∷ table) w
IsBest-cons r0 n0 r n table w b = elim (Bool-cases (ltb n0 n)) [
  | inl more ↦ taken more (rw more at b)
  | inr less ↦ kept less (rw less at b)
]
  where
    taken : ltb n0 n ≡ true → IsBest r n table w → IsBest r0 n0 ((r, n) ∷ table) w
    taken more (inl (e, a)) =
        inr (n, Memᴰ.head (ap (λ k. (k, n)) e), ltb→lt n0 n more, (omega arith, a))
    taken more (inr (m, i, l, a)) =
        let h = ltb→lt n0 n more in inr (m, Memᴰ.tail i, omega arith, (omega arith, a))

    kept : ltb n0 n ≡ false → IsBest r0 n0 table w → IsBest r0 n0 ((r, n) ∷ table) w
    kept less (inl (e, a)) = inl (e, (ground arith, a))
    kept less (inr (m, i, l, a)) = inr (m, Memᴰ.tail i, l, (ground arith, a))

pub max_rank_from-IsBest :
    (r0 : ℤ) (n0 : ℕ) (table : Assoc ℤ ℕ) → IsBest r0 n0 table (max_rank_from r0 n0 table)
unfolding max_rank_from
max_rank_from-IsBest r0 n0 [] = inl (refl, tt)
max_rank_from-IsBest r0 n0 ((r, n) ∷ table) =
    IsBest-cons r0 n0 r n table _
      (max_rank_from-IsBest (if ltb n0 n then r else r0) (if ltb n0 n then n else n0) table)

Above-mem :
    (k r : ℤ) (n : ℕ) (table : Assoc ℤ ℕ) → Above k table → Memᴰ (r, n) table → ltb_ℤ k r ≡ true
Above-mem k r n [] a m = elim m [ ]
Above-mem k r n ((j, c) ∷ table) a (Memᴰ.head e) = ap (ltb_ℤ k) (ap (λ (p : ℤ × ℕ). p.0) e) ∙ a.0
Above-mem k r n ((j, c) ∷ table) a (Memᴰ.tail i) = Above-mem k r n table a.1 i

pub tokens_at-mem :
    (r : ℤ) (n : ℕ) (table : Assoc ℤ ℕ) → IsSorted table → Memᴰ (r, n) table → tokens_at r table ≡ n
unfolding tokens_at lookup
tokens_at-mem r n [] s m = elim m [ ]
tokens_at-mem r n ((k, m) ∷ table) s (Memᴰ.head e) = ground (arith, eqb_ℤ_iff k r)
tokens_at-mem r n ((k, m) ∷ table) s (Memᴰ.tail i) = ground (
  arith,
  eqb_ℤ_iff k r,
  int_ord.lt_irrefl r,
  Above-mem k r n table s.0 i,
  tokens_at-mem r n table s.1 i,
)

pub tokens_at-le :
    (q : ℤ) (n : ℕ) (table : Assoc ℤ ℕ) → All (λ p. p.1 ≤ n) table → tokens_at q table ≤ n
unfolding tokens_at lookup
tokens_at-le q n [] a = omega arith
tokens_at-le q n ((k, m) ∷ table) a = ground (arith, tokens_at-le q n table a.1)

pub contains-matching_ranks :
    (hosts : Assoc ℤ String) (host : String) (q : ℤ) (table : Assoc ℤ ℕ)
    → IsSorted table
    → contains q (matching_ranks hosts host table)
      ≡ (is_on hosts host q && ltb 0 (tokens_at q table))
unfolding matching_ranks tokens_at lookup
contains-matching_ranks hosts host q [] s = unfold contains in ground arith
contains-matching_ranks hosts host q ((k, n) ∷ table) s = ground (
  arith,
  contains-insert q k tt (matching_ranks hosts host table),
  contains-matching_ranks hosts host q table s.1,
  eqb_ℤ_iff k q,
  tokens_at-Above k table s.0,
)
