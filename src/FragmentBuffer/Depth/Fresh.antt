-- ===== src/FragmentBuffer/Depth/Fresh.antt =====
-- `checkDataBuffer` on a data buffer whose fragments are in the order of their timestamps.
use mathlib.Core.Path.{subst}
use artdaq.Prelude.{
  All, ℕ, ◌-◌, ◌≤◌, ◌≡◌, ◌⊎◌, inl, inr, true, Option, none, some, List, [], ◌∷◌, ◌++◌, arith,
}
use artdaq.FragmentBuffer.{Config, DataBuffer, Fragment}
use artdaq.FragmentBuffer.Check.{last_of, is_checked, check_data_buffer}
use artdaq.FragmentBuffer.Depth.{IsAccounted}
use artdaq.FragmentBuffer.Depth.Drop.{
  IsSmall, IsFresh, IsChecked, Checked, check_data_buffer_any_order,
}
use artdaq.FragmentBuffer.Window.Contents.{IsTimed}

-- Every fragment is within the stale timeout of the last one, where there is such a timeout.
abbrev pub AllFresh : Config → List Fragment → Type 0
AllFresh c [] = Unit
AllFresh c (f ∷ rest) =
    (c.stale_timeout ≡ 0)
    ⊎ All (λ g. (last_of f rest).timestamp - c.stale_timeout ≤ g.timestamp) (f ∷ rest)

IsTimed-back : (dropped back : List Fragment) → IsTimed (dropped ++ back) → IsTimed back
IsTimed-back [] back s = s
IsTimed-back (f ∷ dropped) back s = IsTimed-back dropped back s.1

All-later :
    (low : ℕ) (f : Fragment) (rest : List Fragment)
    → low ≤ f.timestamp
    → All (λ g. f.timestamp ≤ g.timestamp) rest
    → All (λ g. low ≤ g.timestamp) rest
All-later low f [] h a = tt
All-later low f (g ∷ rest) h a = (omega (arith, a.0), All-later low f rest h a.1)

IsFresh-AllFresh : (c : Config) (fs : List Fragment) → IsTimed fs → IsFresh c fs → AllFresh c fs
IsFresh-AllFresh c [] s h = tt
IsFresh-AllFresh c (f ∷ rest) s (inl off) = inl off
IsFresh-AllFresh c (f ∷ rest) s (inr h) =
    inr (h, All-later ((last_of f rest).timestamp - c.stale_timeout) f rest h s.0)

abbrev pub CheckedInOrder : Config → List Fragment → Option DataBuffer → Type 0
CheckedInOrder c fs none = ⊥
CheckedInOrder c fs (some e) = IsChecked c fs e × AllFresh c e.fragments

in_order :
    (c : Config) (fs : List Fragment) (o : Option DataBuffer)
    → IsTimed fs
    → Checked c fs o
    → CheckedInOrder c fs o
in_order c fs none s k = elim k [ ]
in_order c fs (some e) s k =
    (k, IsFresh-AllFresh c e.fragments (IsTimed-back k.2.0 e.fragments (subst IsTimed k.2.1 s)) k.3)

-- In a mode that keeps fragments for requests, with the fragments in the order of their timestamps,
-- `checkDataBuffer` ends: the depths it leaves are those of the fragments it leaves, the data buffer
-- is not too large, what it dropped stood at the front, and every fragment that is left is within the
-- stale timeout of the last one, where there is such a timeout. The depths are right before, and they
-- fit the integers that hold them.
pub check_data_buffer-Checked :
    (c : Config) (d : DataBuffer)
    → is_checked c.mode ≡ true
    → IsAccounted d
    → IsSmall d.fragments
    → IsTimed d.fragments
    → CheckedInOrder c d.fragments (check_data_buffer c d)
check_data_buffer-Checked c d on a s timed =
    in_order c d.fragments (check_data_buffer c d) timed (check_data_buffer_any_order c d on a s)
