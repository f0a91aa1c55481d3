-- ===== src/Routing/Manager/Receivers.antt =====
-- `AddReceiverToken` and `Reset` of RoutingManagerPolicy.cc.
use artdaq.Prelude.Ord.{nat_ord, int_ord}
use artdaq.Routing.Manager.{Manager}
use artdaq.Prelude.{
  ltb, ◌==◌, if◌then◌else◌, length, ℕ, zero, suc, ◌+◌, ◌%◌, ◌≡◌, refl, ◌||◌, List, [], ◌∷◌, ◌++◌,
  arith,
}
use artdaq.Prelude.Int.{eqb_ℤ, eqb_ℤ_iff, ℤ}
use artdaq.Map.{contains, insert}
use artdaq.Map.Laws.{contains-insert}
use artdaq.Routing.Tokens.{count, count-append}

-- `tokens_.insert(begin + at, rank)`, for an `at` up to the size.
unfoldable pub insert_at : ℕ → ℤ → List ℤ → List ℤ
insert_at at rank [] = rank ∷ []
insert_at zero rank (t ∷ tokens) = rank ∷ t ∷ tokens
insert_at (suc at) rank (t ∷ tokens) = t ∷ insert_at at rank tokens

-- The loop that spreads `n` tokens over the list. `rand k` is the result of the call of `rand()` in
-- the round that leaves `k` rounds to go.
unfoldable pub scatter : (ℕ → ℕ) → ℤ → ℕ → List ℤ → List ℤ
scatter rand rank zero tokens = tokens
scatter rand rank (suc n) tokens =
    scatter rand rank n (insert_at (rand n % length tokens) rank tokens)

unfoldable pub add_receiver_token : {Own : Type 0} → (ℕ → ℕ) → Manager Own → ℤ → ℕ → Manager Own
add_receiver_token rand m rank new_slots_free =
    let ranks =
      if contains rank m.shared.receiver_ranks
      then m.shared.receiver_ranks
      else insert rank tt m.shared.receiver_ranks in
    let tokens =
      if new_slots_free == 1
      then m.shared.tokens ++ rank ∷ []
      else scatter rand rank new_slots_free m.shared.tokens in
    record m {
      shared = record m.shared { tokens = tokens; receiver_ranks = ranks };
      max_token_count =
          if ltb m.max_token_count (length tokens) then length tokens else m.max_token_count;
    }

-- `Reset`: neither the cache nor the policy's own members are touched.
unfoldable pub reset : {Own : Type 0} → Manager Own → Manager Own
reset m = record m {
  shared = record m.shared { next_sequence_id = 1; tokens = []; receiver_ranks = [] };
}

count-insert_at :
    (q : ℤ) (at : ℕ) (rank : ℤ) (tokens : List ℤ)
    → count q (insert_at at rank tokens) ≡ (if eqb_ℤ rank q then 1 else 0) + count q tokens
unfolding insert_at count
count-insert_at q zero rank [] = refl
count-insert_at q (suc at) rank [] = refl
count-insert_at q zero rank (t ∷ tokens) = refl
count-insert_at q (suc at) rank (t ∷ tokens) = omega (arith, count-insert_at q at rank tokens)

count-scatter :
    (q : ℤ) (rand : ℕ → ℕ) (rank : ℤ) (n : ℕ) (tokens : List ℤ)
    → count q (scatter rand rank n tokens) ≡ (if eqb_ℤ rank q then n else 0) + count q tokens
unfolding scatter
count-scatter q rand rank zero tokens = ground arith
count-scatter q rand rank (suc n) tokens = ground (
  arith,
  count-scatter q rand rank n (insert_at (rand n % length tokens) rank tokens),
  count-insert_at q (rand n % length tokens) rank tokens,
)

length-insert_at :
    (at : ℕ) (rank : ℤ) (tokens : List ℤ) → length (insert_at at rank tokens) ≡ 1 + length tokens
unfolding insert_at
length-insert_at zero rank [] = refl
length-insert_at (suc at) rank [] = refl
length-insert_at zero rank (t ∷ tokens) = omega arith
length-insert_at (suc at) rank (t ∷ tokens) = omega (arith, length-insert_at at rank tokens)

length-scatter :
    (rand : ℕ → ℕ) (rank : ℤ) (n : ℕ) (tokens : List ℤ)
    → length (scatter rand rank n tokens) ≡ n + length tokens
unfolding scatter
length-scatter rand rank zero tokens = omega arith
length-scatter rand rank (suc n) tokens = omega (
  arith,
  length-scatter rand rank n (insert_at (rand n % length tokens) rank tokens),
  length-insert_at (rand n % length tokens) rank tokens,
)

length-last : (rank : ℤ) (tokens : List ℤ) → length (tokens ++ rank ∷ []) ≡ 1 + length tokens
length-last rank [] = refl
length-last rank (t ∷ tokens) = omega (arith, length-last rank tokens)

-- Whatever `rand` gives, a receiver gets the tokens that it sent and no other receiver gets any; it
-- counts as a receiver from then on and no other becomes one; and the recorded largest number of
-- tokens becomes the number of tokens where that is larger, and stays as it is otherwise.
pub add_receiver_token_lem :
    {Own : Type 0} (rand : ℕ → ℕ) (m : Manager Own) (rank : ℤ) (slots : ℕ)
    → ((q : ℤ)
        → count q (add_receiver_token rand m rank slots).shared.tokens
          ≡ (if eqb_ℤ rank q then slots else 0) + count q m.shared.tokens)
      × ((q : ℤ)
          → contains q (add_receiver_token rand m rank slots).shared.receiver_ranks
            ≡ (eqb_ℤ rank q || contains q m.shared.receiver_ranks))
      × ((add_receiver_token rand m rank slots).max_token_count ≡ (
          if ltb m.max_token_count (length (add_receiver_token rand m rank slots).shared.tokens)
          then length (add_receiver_token rand m rank slots).shared.tokens
          else m.max_token_count))
      × (length (add_receiver_token rand m rank slots).shared.tokens
          ≡ slots + length m.shared.tokens)
unfolding add_receiver_token
add_receiver_token_lem rand m rank slots = (
  λ q.
      unfold count in
      ground (
        arith,
        count-scatter q rand rank slots m.shared.tokens,
        count-append q m.shared.tokens (rank ∷ []),
      ),
  λ q. ground (arith, contains-insert q rank tt m.shared.receiver_ranks, eqb_ℤ_iff rank q),
  refl,
  ground (arith, length-scatter rand rank slots m.shared.tokens, length-last rank m.shared.tokens),
)
