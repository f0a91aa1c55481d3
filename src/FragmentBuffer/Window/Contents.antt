-- ===== src/FragmentBuffer/Window/Contents.antt =====
-- What the container of a request window holds, and what stays in the data buffer.
use artdaq.FragmentBuffer.{Fragment, Config, DataBuffer, container}
use artdaq.FragmentBuffer.Window.{
  collect, is_past, window_min, window_max, starts_before, seek_back, fill_window, any_before,
}
use artdaq.Prelude.{
  ltb, leb, ◌==◌, if◌then◌else◌, Bool-cases, All, ℕ, ◌≤◌, ◌≡◌, refl, sym, ap, inl, inr, Bool, true,
  false, ◌&&◌, ◌||◌, List, [], ◌∷◌, arith, not, ◌++◌, ◌∙◌,
}
use artdaq.Prelude.Words.{sub64}

-- The fragments of a data buffer arrive in the order of their timestamps.
abbrev pub IsTimed : List Fragment → Type 0
IsTimed [] = Unit
IsTimed (f ∷ rest) = All (λ g. f.timestamp ≤ g.timestamp) rest × IsTimed rest

-- A timestamp from `minimum` on, before `maximum`, or at it where the window has no width.
abbrev pub in_window : Config → ℕ → ℕ → Fragment → Bool
in_window c minimum maximum f =
    leb minimum f.timestamp
    && (ltb f.timestamp maximum || (f.timestamp == maximum && c.window_width == 0))

abbrev pub keep : (Fragment → Bool) → List Fragment → List Fragment
keep p [] = []
keep p (f ∷ rest) = if p f then f ∷ keep p rest else keep p rest

abbrev pub keep_not : (Fragment → Bool) → List Fragment → List Fragment
keep_not p [] = []
keep_not p (f ∷ rest) = if p f then keep_not p rest else f ∷ keep_not p rest

keep-none :
    (p : Fragment → Bool) (fs : List Fragment)
    → All (λ g. p g ≡ false) fs
    → (keep p fs ≡ []) × (keep_not p fs ≡ fs)
keep-none p [] a = (refl, refl)
keep-none p (f ∷ rest) a =
    rw a.0 ((keep-none p rest a.1).0, ap (λ r. f ∷ r) (keep-none p rest a.1).1)

past_lem :
    (c : Config) (minimum maximum : ℕ) (f g : Fragment)
    → is_past c maximum f ≡ true
    → f.timestamp ≤ g.timestamp
    → in_window c minimum maximum g ≡ false
unfolding is_past
past_lem c minimum maximum f g p h = ground arith

in_window_lem :
    (c : Config) (minimum maximum : ℕ) (f : Fragment)
    → ltb f.timestamp minimum ≡ false
    → is_past c maximum f ≡ false
    → in_window c minimum maximum f ≡ true
unfolding is_past
in_window_lem c minimum maximum f b p = ground arith

early_lem :
    (c : Config) (minimum maximum : ℕ) (f : Fragment)
    → ltb f.timestamp minimum ≡ true
    → in_window c minimum maximum f ≡ false
early_lem c minimum maximum f b = ground arith

All-past :
    (c : Config) (minimum maximum : ℕ) (f : Fragment) (fs : List Fragment)
    → is_past c maximum f ≡ true
    → All (λ g. f.timestamp ≤ g.timestamp) fs
    → All (λ g. in_window c minimum maximum g ≡ false) fs
All-past c minimum maximum f [] p a = tt
All-past c minimum maximum f (g ∷ rest) p a =
    (past_lem c minimum maximum f g p a.0, All-past c minimum maximum f rest p a.1)

abbrev left_over : Config → ℕ → ℕ → List Fragment → List Fragment
left_over c minimum maximum fs =
    if c.unique_windows then keep_not (in_window c minimum maximum) fs else fs

collect-contents :
    (c : Config) (minimum maximum : ℕ) (fs : List Fragment) (bytes : ℕ)
    → IsTimed fs
    → ((collect c minimum maximum fs bytes).2 ≡ keep (in_window c minimum maximum) fs)
      × ((collect c minimum maximum fs bytes).0 ≡ left_over c minimum maximum fs)
unfolding collect
collect-contents c minimum maximum [] bytes s = (refl, ground arith)
collect-contents c minimum maximum (f ∷ rest) bytes s =
    elim (Bool-cases (ltb f.timestamp minimum)) [
      | inl early ↦
          rw (early, early_lem c minimum maximum f early)
            (ground (arith, collect-contents c minimum maximum rest bytes s.1))
      | inr late ↦ elim (Bool-cases (is_past c maximum f)) [
        | inl past ↦
            let none_left = keep-none (in_window c minimum maximum) (f ∷ rest) (
              past_lem c minimum maximum f f past (ground arith),
              All-past c minimum maximum f rest past s.0,
            ) in
            rw (late, past) (sym none_left.0, ground (arith, none_left.1))
        | inr within ↦
            rw (late, within, in_window_lem c minimum maximum f late within)
              (ground (
                arith,
                collect-contents c minimum maximum rest bytes s.1,
                collect-contents c minimum maximum rest (sub64 bytes f.size_bytes) s.1,
              ))
      ]
    ]

keep-append :
    (p : Fragment → Bool) (xs ys : List Fragment)
    → All (λ g. p g ≡ false) xs
    → (keep p (xs ++ ys) ≡ keep p ys) × (xs ++ keep_not p ys ≡ keep_not p (xs ++ ys))
keep-append p [] ys a = (refl, refl)
keep-append p (x ∷ xs) ys a =
    rw a.0 ((keep-append p xs ys a.1).0, ap (λ r. x ∷ r) (keep-append p xs ys a.1).1)

any_before-early :
    (minimum : ℕ) (f : Fragment) (fs : List Fragment)
    → any_before minimum fs ≡ true
    → All (λ g. f.timestamp ≤ g.timestamp) fs
    → ltb f.timestamp minimum ≡ true
unfolding any_before
any_before-early minimum f [] b a = ground arith
any_before-early minimum f (g ∷ rest) b a = ground (arith, any_before-early minimum f rest, a.1)

-- Before the place that the search starts from, every fragment is early.
seek_back-split :
    (minimum : ℕ) (fs : List Fragment)
    → IsTimed fs
    → (fs ≡ (seek_back minimum fs).0 ++ (seek_back minimum fs).1)
      × All (λ g. ltb g.timestamp minimum ≡ true) (seek_back minimum fs).0
      × IsTimed (seek_back minimum fs).1
unfolding seek_back
seek_back-split minimum [] s = (refl, tt, tt)
seek_back-split minimum (f ∷ rest) s = elim (Bool-cases (any_before minimum rest)) [
  | inl some_before ↦
      let further = seek_back-split minimum rest s.1 in
      rw some_before (
        ap (λ r. f ∷ r) further.0,
        (any_before-early minimum f rest some_before s.0, further.1),
        further.2,
      )
  | inr none_before ↦ rw none_before (refl, tt, s)
]

All-early :
    (c : Config) (minimum maximum : ℕ) (fs : List Fragment)
    → All (λ g. ltb g.timestamp minimum ≡ true) fs
    → All (λ g. in_window c minimum maximum g ≡ false) fs
All-early c minimum maximum [] a = tt
All-early c minimum maximum (f ∷ rest) a =
    (early_lem c minimum maximum f a.0, All-early c minimum maximum rest a.1)

abbrev pub is_requested : Config → ℕ → Fragment → Bool
is_requested c ts = in_window c (window_min c ts) (window_max c ts)

left_over-append :
    (c : Config) (minimum maximum : ℕ) (xs ys : List Fragment)
    → All (λ g. in_window c minimum maximum g ≡ false) xs
    → xs ++ left_over c minimum maximum ys ≡ left_over c minimum maximum (xs ++ ys)
left_over-append c minimum maximum xs ys a = elim (Bool-cases c.unique_windows) [
  | inl unique ↦ rw unique (keep-append (in_window c minimum maximum) xs ys a).1
  | inr shared ↦ rw shared refl
]

-- With the fragments in the order of their timestamps, the container of a request holds exactly
-- those of the window, in their order, also when it is filled after a timeout; with unique windows
-- exactly the others stay in the data buffer, and without them all stay.
pub fill_window-contents :
    (c : Config) (now id seq ts : ℕ) (closed : Bool) (d : DataBuffer)
    → IsTimed d.fragments
    → ((fill_window c now id seq ts closed d).1
        ≡ container seq id ts
            (not closed || starts_before (window_min c ts) d)
            (keep (is_requested c ts) d.fragments))
      × ((fill_window c now id seq ts closed d).0.fragments
          ≡ left_over c (window_min c ts) (window_max c ts) d.fragments)
unfolding fill_window
fill_window-contents c now id seq ts true d s =
    let found =
      collect-contents c (window_min c ts) (window_max c ts) d.fragments d.depth_bytes s in
    (ap (container seq id ts (starts_before (window_min c ts) d)) found.0, found.1)
fill_window-contents c now id seq ts false d s =
    let minimum = window_min c ts in
    let maximum = window_max c ts in
    let split = seek_back-split minimum d.fragments s in
    let parts = seek_back minimum d.fragments in
    let found = collect-contents c minimum maximum parts.1 d.depth_bytes split.2 in
    let around =
      keep-append (in_window c minimum maximum) parts.0 parts.1
        (All-early c minimum maximum parts.0 split.1) in
    (
      ap (container seq id ts true)
          (found.0 ∙ sym around.0 ∙ sym (ap (keep (in_window c minimum maximum)) split.0)),
      ap (λ r. parts.0 ++ r) found.1
          ∙ left_over-append c minimum maximum parts.0 parts.1
              (All-early c minimum maximum parts.0 split.1)
          ∙ sym (ap (left_over c minimum maximum) split.0),
    )
