-- ===== src/FragmentBuffer/Depth/Drop.antt =====
-- `checkDataBuffer` on a data buffer whose depths are right.
use mathlib.Core.Path.{subst}
use mathlib.Core.List.{append_assoc}
use artdaq.FragmentBuffer.{DataBuffer, Fragment, Config, size_as_int}
use artdaq.FragmentBuffer.Fill.{drop_front, shrink, data_buffer_is_too_large}
use artdaq.FragmentBuffer.Check.{drop_stale, last_of, stale_before, is_checked, check_data_buffer}
use artdaq.FragmentBuffer.Depth.{IsAccounted, drop_front-IsAccounted, total_bytes}
use artdaq.Prelude.{
  Bool-cases, length, ℕ, ◌^◌, ◌≤◌, ◌<◌, ◌≡◌, sym, ap, inl, inr, false, Option, none, some, List, [],
  ◌∷◌, ◌++◌, ltb, refl, ◌&&◌, ◌||◌, arith, ◌-◌, ◌⊎◌, ◌∙◌, true,
}
use artdaq.Prelude.Int.{ltb_ℤ, ℤ, pos, negsuc}
use artdaq.Prelude.Words.{u64}

-- The fragments `fs` without a front part.
abbrev pub IsBack : List Fragment → List Fragment → Type 0
IsBack fs back = (dropped : List Fragment) × (fs ≡ dropped ++ back)

-- The depths fit the `int` and the `size_t` that record them.
abbrev pub IsSmall : List Fragment → Type 0
IsSmall fs = (length fs < 2 ^ 31) × (total_bytes fs < 2 ^ 64)

abbrev Shrunk : Config → List Fragment → Option DataBuffer → Type 0
Shrunk c fs none = ⊥
Shrunk c fs (some e) =
    IsAccounted e × (data_buffer_is_too_large c e ≡ false) × IsBack fs e.fragments

Shrunk-cons :
    (c : Config) (f : Fragment) (fs : List Fragment) (o : Option DataBuffer)
    → Shrunk c fs o
    → Shrunk c (f ∷ fs) o
Shrunk-cons c f fs none s = elim s [ ]
Shrunk-cons c f fs (some e) s = (s.0, s.1, (f ∷ s.2.0, ap (λ r. f ∷ r) s.2.1))

no_depth_fits :
    (most : ℤ) (most_bytes : ℕ) (depth : ℤ) (bytes : ℕ)
    → depth ≡ size_as_int []
    → bytes ≡ u64 0
    → ((ltb_ℤ (pos 0) most && ltb_ℤ most depth) || (ltb 0 most_bytes && ltb most_bytes bytes))
      ≡ false
no_depth_fits (pos n) most_bytes depth bytes e h = rw (e, h) (ground arith)
no_depth_fits (negsuc n) most_bytes depth bytes e h = rw (e, h) (ground arith)

drop_front-fragments :
    (f : Fragment) (rest : List Fragment) (d : DataBuffer) → (drop_front f rest d).fragments ≡ rest
unfolding drop_front
drop_front-fragments f rest d = refl

empty_fits :
    (c : Config) (d : DataBuffer)
    → d.fragments ≡ []
    → IsAccounted d
    → data_buffer_is_too_large c d ≡ false
unfolding data_buffer_is_too_large
empty_fits c d e a =
    no_depth_fits c.max_depth_fragments c.max_depth_bytes d.depth_fragments d.depth_bytes
      (subst (λ fs. d.depth_fragments ≡ size_as_int fs) e a.1)
      (subst (λ fs. d.depth_bytes ≡ u64 (total_bytes fs)) e a.2)

shrink_lem :
    (c : Config) (fs : List Fragment) (d : DataBuffer)
    → d.fragments ≡ fs
    → IsAccounted d
    → Shrunk c fs (shrink c fs d)
unfolding shrink
shrink_lem c [] d e a = rw (empty_fits c d e a) (a, empty_fits c d e a, ([], sym e))
shrink_lem c (f ∷ rest) d e a = elim (Bool-cases (data_buffer_is_too_large c d)) [
  | inl large ↦ rw large (
      Shrunk-cons c f rest _ (
        shrink_lem c rest (drop_front f rest d) (drop_front-fragments f rest d)
          (drop_front-IsAccounted f rest d e a)))
  | inr fits ↦ rw fits (a, fits, ([], sym e))
]

abbrev Pruned : ℕ → Fragment → List Fragment → DataBuffer → Type 0
Pruned m f rest e =
    IsAccounted e
    × IsBack (f ∷ rest) e.fragments
    × (g : Fragment) × (more : List Fragment) × (e.fragments ≡ g ∷ more)
    × (last_of g more ≡ last_of f rest)
    × (m ≤ g.timestamp)

not_ltb : (a b : ℕ) → b ≤ a → ltb a b ≡ false
not_ltb a b h = ground arith

Pruned-cons :
    (m : ℕ) (f g : Fragment) (rest : List Fragment) (e : DataBuffer)
    → Pruned m g rest e
    → Pruned m f (g ∷ rest) e
Pruned-cons m f g rest e p = (p.0, (f ∷ p.1.0, ap (λ r. f ∷ r) p.1.1), p.2, p.3, p.4, p.5, p.6)

drop_stale_lem :
    (m : ℕ) (f : Fragment) (rest : List Fragment) (d : DataBuffer)
    → d.fragments ≡ f ∷ rest
    → IsAccounted d
    → m ≤ (last_of f rest).timestamp
    → Pruned m f rest (drop_stale m (f ∷ rest) d)
unfolding drop_stale
drop_stale_lem m f [] d e a h = rw (not_ltb f.timestamp m h) (a, ([], sym e), f, [], e, refl, h)
drop_stale_lem m f (g ∷ rest) d e a h = elim (Bool-cases (ltb f.timestamp m)) [
  | inl stale ↦ rw stale (
      Pruned-cons m f g rest (drop_stale m (g ∷ rest) (drop_front f (g ∷ rest) d)) (
        drop_stale_lem m g rest (drop_front f (g ∷ rest) d) (drop_front-fragments f (g ∷ rest) d)
          (drop_front-IsAccounted f (g ∷ rest) d e a) h))
  | inr fresh ↦ rw fresh (a, ([], sym e), f, g ∷ rest, e, refl, ground arith)
]

-- The first fragment is within the stale timeout of the last one, where there is such a timeout.
abbrev pub IsFresh : Config → List Fragment → Type 0
IsFresh c [] = Unit
IsFresh c (f ∷ rest) =
    (c.stale_timeout ≡ 0) ⊎ ((last_of f rest).timestamp - c.stale_timeout ≤ f.timestamp)

abbrev pub IsChecked : Config → List Fragment → DataBuffer → Type 0
IsChecked c fs e =
    IsAccounted e
    × (data_buffer_is_too_large c e ≡ false)
    × IsBack fs e.fragments
    × IsFresh c e.fragments

pub size_as_int_small : (fs : List Fragment) → IsSmall fs → size_as_int fs ≡ pos (length fs)
size_as_int_small fs s = ground arith

IsBack-measures :
    (fs back : List Fragment)
    → IsBack fs back
    → (length back ≤ length fs) × (total_bytes back ≤ total_bytes fs)
IsBack-measures fs back b = rw b.1 (go b.0)
  where
    go :
        (dropped : List Fragment)
        → (length back ≤ length (dropped ++ back))
          × (total_bytes back ≤ total_bytes (dropped ++ back))
    go [] = (ground arith, ground arith)
    go (f ∷ more) = ground (arith, go more)

IsBack-IsSmall : (fs back : List Fragment) → IsBack fs back → IsSmall fs → IsSmall back
IsBack-IsSmall fs back b s = ground (arith, IsBack-measures fs back b)

fits_less :
    (most : ℤ) (most_bytes n m a b : ℕ)
    → m ≤ n
    → b ≤ a
    → ((ltb_ℤ (pos 0) most && ltb_ℤ most (pos n)) || (ltb 0 most_bytes && ltb most_bytes a)) ≡ false
    → ((ltb_ℤ (pos 0) most && ltb_ℤ most (pos m)) || (ltb 0 most_bytes && ltb most_bytes b)) ≡ false
fits_less (pos k) most_bytes n m a b h l e = ground arith
fits_less (negsuc k) most_bytes n m a b h l e = ground arith

fits_back :
    (c : Config) (d e : DataBuffer)
    → IsAccounted d
    → IsAccounted e
    → IsBack d.fragments e.fragments
    → IsSmall d.fragments
    → data_buffer_is_too_large c d ≡ false
    → data_buffer_is_too_large c e ≡ false
unfolding data_buffer_is_too_large
fits_back c d e a b k s h =
    let small = IsBack-IsSmall d.fragments e.fragments k s in
    let less = IsBack-measures d.fragments e.fragments k in
    rw (b.1, b.2, size_as_int_small e.fragments small)
      (fits_less c.max_depth_fragments c.max_depth_bytes (length d.fragments) (length e.fragments)
        (u64 (total_bytes d.fragments)) (u64 (total_bytes e.fragments)) less.0 (omega arith)
        (rw (a.1, a.2, size_as_int_small d.fragments s) at h))

Pruned-IsChecked :
    (c : Config) (f : Fragment) (rest : List Fragment) (d e : DataBuffer)
    → d.fragments ≡ f ∷ rest
    → IsAccounted d
    → data_buffer_is_too_large c d ≡ false
    → IsSmall (f ∷ rest)
    → Pruned ((last_of f rest).timestamp - c.stale_timeout) f rest e
    → IsChecked c (f ∷ rest) e
Pruned-IsChecked c f rest d e q a h s p = (
  p.0,
  fits_back c d e a p.0 (p.1.0, q ∙ p.1.1) (subst IsSmall (sym q) s) h,
  p.1,
  subst (IsFresh c) (sym p.4)
      (inr (subst (λ l. l.timestamp - c.stale_timeout ≤ p.2.timestamp) (sym p.5) p.6)),
)

no_depth :
    (d : DataBuffer) → d.fragments ≡ [] → IsAccounted d → ltb_ℤ (pos 0) d.depth_fragments ≡ false
no_depth d q a = rw (a.1, q) (ground arith)

has_depth :
    (f : Fragment) (rest : List Fragment) (d : DataBuffer)
    → d.fragments ≡ f ∷ rest
    → IsAccounted d
    → IsSmall (f ∷ rest)
    → ltb_ℤ (pos 0) d.depth_fragments ≡ true
has_depth f rest d q a s = rw (a.1, q, size_as_int_small (f ∷ rest) s) (ground arith)

stale_before_lem :
    (c : Config) (d : DataBuffer) (fs : List Fragment)
    → d.fragments ≡ fs
    → IsAccounted d
    → data_buffer_is_too_large c d ≡ false
    → IsSmall fs
    → IsChecked c fs (stale_before c fs d)
unfolding stale_before
stale_before_lem c d [] e a h s = (a, h, ([], sym e), subst (IsFresh c) (sym e) tt)
stale_before_lem c d (f ∷ rest) e a h s = elim (Bool-cases (ltb 0 c.stale_timeout)) [
  | inl on ↦
      rw (has_depth f rest d e a s, on)
        (Pruned-IsChecked c f rest d _ e a h s (
          drop_stale_lem ((last_of f rest).timestamp - c.stale_timeout) f rest d e a
            (ground arith)))
  | inr off ↦
      rw (has_depth f rest d e a s, off)
        (a, h, ([], sym e), subst (IsFresh c) (sym e) (inl (ground arith)))
]

abbrev pub Checked : Config → List Fragment → Option DataBuffer → Type 0
Checked c fs none = ⊥
Checked c fs (some e) = IsChecked c fs e

IsBack-trans : (xs ys zs : List Fragment) → IsBack xs ys → IsBack ys zs → IsBack xs zs
IsBack-trans xs ys zs a b =
    (a.0 ++ b.0, a.1 ∙ ap (λ r. a.0 ++ r) b.1 ∙ sym (append_assoc a.0 b.0 zs))

stale_before-Checked :
    (c : Config) (fs : List Fragment) (o : Option DataBuffer)
    → IsSmall fs
    → Shrunk c fs o
    → Checked c fs (elim o [ none ↦ none | some e ↦ some (stale_before c e.fragments e) ])
stale_before-Checked c fs none s k = elim k [ ]
stale_before-Checked c fs (some e) s k =
    let r = stale_before_lem c e e.fragments refl k.0 k.1 (IsBack-IsSmall fs e.fragments k.2 s) in
    (r.0, r.1, IsBack-trans fs e.fragments _ k.2 r.2, r.3)

-- `checkDataBuffer` on fragments in any order.
pub check_data_buffer_any_order :
    (c : Config) (d : DataBuffer)
    → is_checked c.mode ≡ true
    → IsAccounted d
    → IsSmall d.fragments
    → Checked c d.fragments (check_data_buffer c d)
unfolding check_data_buffer
check_data_buffer_any_order c d on a s = go d.fragments refl
  where
    go : (fs : List Fragment) → d.fragments ≡ fs → Checked c d.fragments (check_data_buffer c d)
    go [] e = rw (no_depth d e a) (a, empty_fits c d e a, ([], refl), subst (IsFresh c) (sym e) tt)
    go (f ∷ rest) e =
        rw (has_depth f rest d e a (subst IsSmall e s), on)
          (stale_before-Checked c d.fragments (shrink c d.fragments d) s
            (shrink_lem c d.fragments d refl a))
