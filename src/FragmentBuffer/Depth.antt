-- ===== src/FragmentBuffer/Depth.antt =====
-- The depths that a data buffer records, against its fragments.
pub mod Drop
pub mod Fresh
pub mod Modes
pub mod Apply
use mathlib.Core.Path.{subst}
use artdaq.FragmentBuffer.{
  DataBuffer, Fragment, size_as_int, single, RequestMode, buffer, window, ignored, sequence_id_mode,
}
use artdaq.FragmentBuffer.Fill.{
  clear_data_buffer, drop_front, append_all, keep_last, add_to_data_buffer,
}
use artdaq.Prelude.{All, ℕ, ◌+◌, ◌^◌, ◌<◌, ◌≡◌, refl, List, [], ◌∷◌, ◌++◌, arith}
use artdaq.Prelude.Int.{ℤ}
use artdaq.Prelude.Words.{u64, sub64}

-- The sum of the sizes.
abbrev pub total_bytes : List Fragment → ℕ
total_bytes [] = 0
total_bytes (f ∷ rest) = f.size_bytes + total_bytes rest

-- A size is a `size_t`.
abbrev pub IsSized : Fragment → Type 0
IsSized f = f.size_bytes < 2 ^ 64

abbrev pub HasDepth : List Fragment → ℤ → ℕ → Type 0
HasDepth fragments depth bytes =
    All IsSized fragments × (depth ≡ size_as_int fragments) × (bytes ≡ u64 (total_bytes fragments))

abbrev pub IsAccounted : DataBuffer → Type 0
IsAccounted d = HasDepth d.fragments d.depth_fragments d.depth_bytes

pub sub64_lem : (s t b : ℕ) → s < 2 ^ 64 → b ≡ u64 (s + t) → sub64 b s ≡ u64 t
sub64_lem s t b h e = omega arith

pub sub64_mid : (s t a b : ℕ) → s < 2 ^ 64 → b ≡ u64 (a + (s + t)) → sub64 b s ≡ u64 (a + t)
sub64_mid s t a b h e = omega arith

pub add64_lem : (t s b : ℕ) → b ≡ u64 t → u64 (b + s) ≡ u64 (t + s)
add64_lem t s b e = omega arith

pub total_bytes-append :
    (xs ys : List Fragment) → total_bytes (xs ++ ys) ≡ total_bytes xs + total_bytes ys
total_bytes-append [] ys = omega arith
total_bytes-append (x ∷ xs) ys = omega (arith, total_bytes-append xs ys)

pub All-append {ℓ κ} :
    {A : Type ℓ} (P : A → Type κ) (xs ys : List A) → All P xs → All P ys → All P (xs ++ ys)
All-append P [] ys a b = b
All-append P (x ∷ xs) ys a b = (a.0, All-append P xs ys a.1 b)

pub clear_data_buffer-IsAccounted : (d : DataBuffer) → IsAccounted (clear_data_buffer d)
unfolding clear_data_buffer
clear_data_buffer-IsAccounted d = (tt, refl, refl)

pub drop_front-IsAccounted :
    (f : Fragment) (rest : List Fragment) (d : DataBuffer)
    → d.fragments ≡ f ∷ rest
    → IsAccounted d
    → IsAccounted (drop_front f rest d)
unfolding drop_front
drop_front-IsAccounted f rest d e a =
    let s = subst (All IsSized) e a.0 in
    (
      s.1,
      refl,
      sub64_lem f.size_bytes (total_bytes rest) d.depth_bytes s.0
          (subst (λ fs. d.depth_bytes ≡ u64 (total_bytes fs)) e a.2),
    )

append_all-IsAccounted :
    (fs : List Fragment) (d : DataBuffer)
    → All IsSized fs
    → All IsSized d.fragments
    → d.depth_bytes ≡ u64 (total_bytes d.fragments)
    → IsAccounted (append_all d fs)
unfolding append_all
append_all-IsAccounted [] d s a e = (a, refl, e)
append_all-IsAccounted (f ∷ rest) d s a e =
    append_all-IsAccounted rest _ s.1 (All-append IsSized d.fragments (f ∷ []) a (s.0, tt))
      (omega (arith, total_bytes-append d.fragments (f ∷ []), e))

keep_last-IsAccounted :
    (fs : List Fragment) (f : Fragment) (d : DataBuffer)
    → IsSized f
    → All IsSized fs
    → IsAccounted (keep_last d f fs)
unfolding keep_last
keep_last-IsAccounted [] f d s a = ((s, tt), refl, omega arith)
keep_last-IsAccounted (g ∷ rest) f d s a = keep_last-IsAccounted rest g d a.0 a.1

-- Adding fragments to a data buffer whose depths are right, in any mode, leaves them right.
pub add_to_data_buffer-IsAccounted :
    (mode : RequestMode) (d : DataBuffer) (group : List Fragment)
    → All IsSized group
    → IsAccounted d
    → IsAccounted (add_to_data_buffer mode d group)
unfolding add_to_data_buffer
add_to_data_buffer-IsAccounted mode d [] s a = a
add_to_data_buffer-IsAccounted single d (f ∷ rest) s a = keep_last-IsAccounted rest f d s.0 s.1
add_to_data_buffer-IsAccounted buffer d (f ∷ rest) s a =
    append_all-IsAccounted (f ∷ rest) d s a.0 a.2
add_to_data_buffer-IsAccounted window d (f ∷ rest) s a =
    append_all-IsAccounted (f ∷ rest) d s a.0 a.2
add_to_data_buffer-IsAccounted ignored d (f ∷ rest) s a =
    append_all-IsAccounted (f ∷ rest) d s a.0 a.2
add_to_data_buffer-IsAccounted sequence_id_mode d (f ∷ rest) s a =
    append_all-IsAccounted (f ∷ rest) d s a.0 a.2
