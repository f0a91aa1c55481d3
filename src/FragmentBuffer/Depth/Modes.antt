-- ===== src/FragmentBuffer/Depth/Modes.antt =====
-- The depths through the request modes.
use mathlib.Core.Path.{subst}
use artdaq.RequestBuffer.{RequestBuffer}
use artdaq.FragmentBuffer.{Output, container, Fragment, DataBuffer, Config}
use artdaq.FragmentBuffer.Fill.{map_buffers}
use artdaq.FragmentBuffer.Check.{last_of}
use artdaq.FragmentBuffer.Modes.{
  discard_kept, after_copy, copy_fragments, copy_buffer, copy_buffers, take_all, raise_next, wholes,
}
use artdaq.FragmentBuffer.Window.{
  window_min, window_max, is_closed, check_and_fill_data_buffer, fill_data_buffers, seek_back,
  collect, fill_window,
}
use artdaq.FragmentBuffer.Sequence.{
  note_found, raise_highest, search_data_buffers, extract, search_data_buffer,
}
use artdaq.Prelude.Ord.{nat_ord}
use artdaq.FragmentBuffer.Depth.{
  IsAccounted, IsSized, total_bytes, sub64_mid, total_bytes-append, All-append,
  clear_data_buffer-IsAccounted, sub64_lem,
}
use artdaq.Prelude.{
  All, ℕ, ◌+◌, ◌≡◌, refl, ap, Bool, List, [], ◌∷◌, ◌++◌, arith, Bool-cases, ◌∙◌, inl, inr, true,
  false, ◌&&◌,
}
use artdaq.Prelude.Words.{u64, sub64}
use artdaq.Map.{Assoc}
use artdaq.Prelude.Int.{ltb_ℤ, pos}

abbrev pub AreAccounted : Assoc ℕ DataBuffer → Type 0
AreAccounted = All (λ p. IsAccounted p.1)

abbrev HasBytes : ℕ → List Fragment → ℕ → Type 0
HasBytes a fs bytes = All IsSized fs × (bytes ≡ u64 (a + total_bytes fs))

HasBytes-cons :
    (a : ℕ) (f : Fragment) (fs : List Fragment) (bytes : ℕ)
    → IsSized f
    → HasBytes (a + f.size_bytes) fs bytes
    → HasBytes a (f ∷ fs) bytes
HasBytes-cons a f fs bytes s h = ((s, h.0), omega (arith, h.1))

collect-HasBytes :
    (c : Config) (minimum maximum a : ℕ) (fs : List Fragment) (bytes : ℕ)
    → HasBytes a fs bytes
    → HasBytes a (collect c minimum maximum fs bytes).0 (collect c minimum maximum fs bytes).1
unfolding collect
collect-HasBytes c minimum maximum a [] bytes h = h
collect-HasBytes c minimum maximum a (f ∷ rest) bytes h =
    let skipped = HasBytes-cons a f _ _ h.0.0 (
      collect-HasBytes c minimum maximum (a + f.size_bytes) rest bytes
        (h.0.1, omega (arith, h.1))) in
    let taken =
      collect-HasBytes c minimum maximum a rest (sub64 bytes f.size_bytes)
        (h.0.1, sub64_mid f.size_bytes (total_bytes rest) a bytes h.0.0 h.1) in
    ground (arith, skipped, taken, h)

extract-HasBytes :
    (seq a : ℕ) (fs : List Fragment) (bytes : ℕ)
    → HasBytes a fs bytes
    → HasBytes a (extract seq fs bytes).0 (extract seq fs bytes).1
unfolding extract
extract-HasBytes seq a [] bytes h = h
extract-HasBytes seq a (f ∷ rest) bytes h =
    let skipped =
      HasBytes-cons a f _ _ h.0.0
        (extract-HasBytes seq (a + f.size_bytes) rest bytes (h.0.1, omega (arith, h.1))) in
    let taken =
      extract-HasBytes seq a rest (sub64 bytes f.size_bytes)
        (h.0.1, sub64_mid f.size_bytes (total_bytes rest) a bytes h.0.0 h.1) in
    ground (arith, skipped, taken)

seek_back-append :
    (minimum : ℕ) (fs : List Fragment) → fs ≡ (seek_back minimum fs).0 ++ (seek_back minimum fs).1
unfolding seek_back
seek_back-append minimum [] = refl
seek_back-append minimum (f ∷ rest) =
    ground (arith, ap (λ r. f ∷ r) (seek_back-append minimum rest))

All-split : (xs ys : List Fragment) → All IsSized (xs ++ ys) → All IsSized xs × All IsSized ys
All-split [] ys a = (tt, a)
All-split (x ∷ xs) ys a = ((a.0, (All-split xs ys a.1).0), (All-split xs ys a.1).1)

HasBytes-joined :
    (front left : List Fragment) (bytes : ℕ)
    → All IsSized front
    → HasBytes (total_bytes front) left bytes
    → All IsSized (front ++ left) × (bytes ≡ u64 (total_bytes (front ++ left)))
HasBytes-joined front left bytes a h =
    (All-append IsSized front left a h.0, omega (arith, h.1, total_bytes-append front left))

fill_window-IsAccounted :
    (c : Config) (now id seq ts : ℕ) (closed : Bool) (d : DataBuffer)
    → IsAccounted d
    → IsAccounted (fill_window c now id seq ts closed d).0
unfolding fill_window
fill_window-IsAccounted c now id seq ts true d a =
    let found =
      collect-HasBytes c (window_min c ts) (window_max c ts) 0 d.fragments d.depth_bytes
        (a.0, omega (arith, a.2)) in
    (found.0, refl, omega (arith, found.1))
fill_window-IsAccounted c now id seq ts false d a =
    let parts = seek_back (window_min c ts) d.fragments in
    let whole_again = seek_back-append (window_min c ts) d.fragments in
    let sized = All-split parts.0 parts.1 (subst (All IsSized) whole_again a.0) in
    let found =
      collect-HasBytes c (window_min c ts) (window_max c ts) (total_bytes parts.0) parts.1
        d.depth_bytes
        (
          sized.1,
          a.2
              ∙ ap (λ fs. u64 (total_bytes fs)) whole_again
              ∙ ap u64 (total_bytes-append parts.0 parts.1),
        ) in
    let joined =
      HasBytes-joined parts.0
        (collect c (window_min c ts) (window_max c ts) parts.1 d.depth_bytes).0 _ sized.0 found in
    (joined.0, refl, joined.1)

note_found-IsAccounted :
    (now seq : ℕ) (left : List Fragment × ℕ) (found : List Fragment) (d : DataBuffer)
    → HasBytes 0 left.0 left.1
    → IsAccounted d
    → IsAccounted (note_found now seq left found d)
unfolding note_found
note_found-IsAccounted now seq left [] d h a = a
note_found-IsAccounted now seq left (f ∷ more) d h a = (h.0, refl, omega (arith, h.1))

search_data_buffer-IsAccounted :
    (now seq : ℕ) (d : DataBuffer) → IsAccounted d → IsAccounted (search_data_buffer now seq d).0
unfolding search_data_buffer
search_data_buffer-IsAccounted now seq d a =
    let found = extract seq d.fragments d.depth_bytes in
    note_found-IsAccounted now seq (found.0, found.1) found.2 d
      (extract-HasBytes seq 0 d.fragments d.depth_bytes (a.0, omega (arith, a.2))) a

discard_kept-IsAccounted :
    (fs : List Fragment) (d : DataBuffer)
    → d.fragments ≡ fs
    → IsAccounted d
    → IsAccounted (discard_kept fs d)
unfolding discard_kept
discard_kept-IsAccounted [] d e a = a
discard_kept-IsAccounted (f ∷ rest) d e a =
    let sized = subst (All IsSized) e a.0 in
    let bytes = subst (λ fs. d.depth_bytes ≡ u64 (total_bytes fs)) e a.2 in
    elim (Bool-cases (d.buffer_fragment_kept && ltb_ℤ (pos 1) d.depth_fragments)) [
      | inl more ↦
          rw more
            (sized.1, refl, sub64_lem f.size_bytes (total_bytes rest) d.depth_bytes sized.0 bytes)
      | inr only ↦ rw only a
    ]

last-IsSized :
    (f : Fragment) (rest : List Fragment) → All IsSized (f ∷ rest) → IsSized (last_of f rest)
last-IsSized f [] a = a.0
last-IsSized f (g ∷ rest) a = last-IsSized g rest a.1

after_copy-IsAccounted :
    (c : Config) (latest : Fragment) (d : DataBuffer)
    → IsSized latest
    → IsAccounted (after_copy c latest d)
unfolding after_copy
after_copy-IsAccounted c latest d s = elim (Bool-cases c.buffer_mode_keep_latest) [
  | inl kept ↦ rw kept ((s, tt), refl, omega arith)
  | inr cleared ↦ rw cleared (clear_data_buffer-IsAccounted d)
]

copy_fragments-IsAccounted :
    (c : Config) (fs : List Fragment) (d : DataBuffer)
    → All IsSized fs
    → IsAccounted d
    → IsAccounted (copy_fragments c fs d).0
unfolding copy_fragments
copy_fragments-IsAccounted c [] d s a = a
copy_fragments-IsAccounted c (f ∷ rest) d s a =
    after_copy-IsAccounted c (last_of f rest) d (last-IsSized f rest s)

copy_buffer-IsAccounted :
    (c : Config) (d : DataBuffer) → IsAccounted d → IsAccounted (copy_buffer c d).0
unfolding copy_buffer
copy_buffer-IsAccounted c d a =
    let current = discard_kept-IsAccounted d.fragments d refl a in
    copy_fragments-IsAccounted c (discard_kept d.fragments d).fragments (discard_kept d.fragments d)
      current.0 current

-- Through the data buffers.
pub map_buffers-AreAccounted :
    (change : DataBuffer → DataBuffer) (buffers : Assoc ℕ DataBuffer)
    → ((d : DataBuffer) → IsAccounted d → IsAccounted (change d))
    → AreAccounted buffers
    → AreAccounted (map_buffers change buffers)
map_buffers-AreAccounted change [] h a = tt
map_buffers-AreAccounted change ((id, d) ∷ rest) h a =
    (h d a.0, map_buffers-AreAccounted change rest h a.1)

pub take_all-AreAccounted :
    (next : ℕ) (buffers : Assoc ℕ DataBuffer) (frags : List Output)
    → AreAccounted (take_all next buffers frags).1
unfolding take_all
take_all-AreAccounted next [] frags = tt
take_all-AreAccounted next ((id, d) ∷ rest) frags = (
  clear_data_buffer-IsAccounted d,
  take_all-AreAccounted (raise_next next d.fragments) rest (frags ++ wholes d.fragments),
)

pub copy_buffers-AreAccounted :
    (c : Config) (seq ts : ℕ) (buffers : Assoc ℕ DataBuffer) (frags : List Output)
    → AreAccounted buffers
    → AreAccounted (copy_buffers c seq ts buffers frags).0
unfolding copy_buffers
copy_buffers-AreAccounted c seq ts [] frags a = tt
copy_buffers-AreAccounted c seq ts ((id, d) ∷ rest) frags a = (
  copy_buffer-IsAccounted c d a.0,
  copy_buffers-AreAccounted c seq ts rest
      (frags ++ container seq id ts false (copy_buffer c d).1 ∷ []) a.1,
)

check_and_fill-IsAccounted :
    (c : Config) (r : RequestBuffer) (now id seq ts : ℕ) (d : DataBuffer)
    → IsAccounted d
    → IsAccounted (check_and_fill_data_buffer c r now id seq ts d).0
unfolding check_and_fill_data_buffer
check_and_fill-IsAccounted c r now id seq ts d a =
    ground (arith, fill_window-IsAccounted c now id seq ts (is_closed (window_max c ts) d) d a)

pub fill_data_buffers-AreAccounted :
    (c : Config) (r : RequestBuffer) (now seq ts : ℕ) (buffers : Assoc ℕ DataBuffer)
    → AreAccounted buffers
    → AreAccounted (fill_data_buffers c r now seq ts buffers).0
unfolding fill_data_buffers
fill_data_buffers-AreAccounted c r now seq ts [] a = tt
fill_data_buffers-AreAccounted c r now seq ts ((id, d) ∷ rest) a = ground (
  arith,
  check_and_fill-IsAccounted c r now id seq ts d a.0,
  fill_data_buffers-AreAccounted c r now seq ts rest a.1,
  a.0,
)

pub search_data_buffers-AreAccounted :
    (now seq : ℕ) (buffers : Assoc ℕ DataBuffer)
    → AreAccounted buffers
    → AreAccounted (search_data_buffers now seq buffers).0
unfolding search_data_buffers raise_highest
search_data_buffers-AreAccounted now seq [] a = tt
search_data_buffers-AreAccounted now seq ((id, d) ∷ rest) a = ground (
  arith,
  search_data_buffer-IsAccounted now seq d a.0,
  search_data_buffers-AreAccounted now seq rest a.1,
  a.0,
)
