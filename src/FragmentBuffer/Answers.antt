-- ===== src/FragmentBuffer/Answers.antt =====
-- What the requests are answered with: empty fragments for missed requests, everything in Ignored
-- mode; and what `Reset` leaves behind.
use mathlib.Core.List.{append_assoc, append-nil}
use artdaq.Prelude.Ord.{nat_ord}
use artdaq.RequestBuffer.{RequestBuffer}
use artdaq.Map.{contains, keys, Assoc}
use artdaq.FragmentBuffer.{FragmentBuffer, Config, DataBuffer, Fragment, Output, empty, whole}
use artdaq.FragmentBuffer.Fill.{append_all, reset, map_buffers, clear_data_buffer}
use artdaq.FragmentBuffer.Check.{
  send_empty_fragments, send_empty_to_all, send_missed, send_empty_fragment,
}
use artdaq.FragmentBuffer.Modes.{take_all, raise_next, wholes, apply_requests_ignored_mode}
use artdaq.FragmentBuffer.Window.{fill_data_buffers}
use artdaq.Prelude.{
  All, ℕ, zero, suc, ◌+◌, ◌-◌, ◌^◌, ◌≤◌, ◌<◌, ◌≡◌, refl, sym, ap, ◌∙◌, Bool, true, List, [], ◌∷◌,
  ◌++◌, map, arith, if◌then◌else◌,
}
use artdaq.Prelude.Words.{u64}

-- One empty fragment for every declared ID and each of `count` sequence IDs from `next` on.
abbrev pub missed_answers : List ℕ → ℕ → ℕ → List Output
missed_answers ids next zero = []
missed_answers ids next (suc count) = map (empty next) ids ++ missed_answers ids (suc next) count

send_empty_to_all_lem :
    (buffers : Assoc ℕ DataBuffer) (frags : List Output) (seq : ℕ)
    → send_empty_to_all frags seq buffers ≡ frags ++ map (empty seq) (keys buffers)
unfolding send_empty_to_all send_empty_fragment
send_empty_to_all_lem [] frags seq = sym (append-nil frags)
send_empty_to_all_lem ((id, d) ∷ rest) frags seq =
    send_empty_to_all_lem rest (frags ++ empty seq id ∷ []) seq
    ∙ append_assoc frags (empty seq id ∷ []) (map (empty seq) (keys rest))

send_missed_lem :
    (c : Config) (buffers : Assoc ℕ DataBuffer) (count next : ℕ) (frags : List Output)
    → next + count < 2 ^ 64
    → (send_missed c buffers count next frags).0 ≡ next + count
unfolding send_missed
send_missed_lem c buffers zero next frags h = omega arith
send_missed_lem c buffers (suc count) next frags h =
    send_missed_lem c buffers count (u64 (next + 1)) _ (omega arith) ∙ omega arith

next_fits : (next : ℕ) → next + 1 < 2 ^ 64 → u64 (next + 1) ≡ suc next
next_fits next h = omega arith

send_missed-answers :
    (c : Config) (buffers : Assoc ℕ DataBuffer) (count next : ℕ) (frags : List Output)
    → c.send_missing_fragments ≡ true
    → next + count < 2 ^ 64
    → (send_missed c buffers count next frags).1 ≡ frags ++ missed_answers (keys buffers) next count
unfolding send_missed
send_missed-answers c buffers zero next frags on h = sym (append-nil frags)
send_missed-answers c buffers (suc count) next frags on h =
    let all = send_empty_to_all frags next buffers in
    ap (λ s. (send_missed c buffers count (u64 (next + 1)) (if s then all else frags)).1) on
    ∙ ap (λ n. (send_missed c buffers count n all).1) (next_fits next (omega arith))
    ∙ send_missed-answers c buffers count (suc next) all on (omega arith)
    ∙ ap (λ r. r ++ missed_answers (keys buffers) (suc next) count)
        (send_empty_to_all_lem buffers frags next)
    ∙ append_assoc frags (map (empty next) (keys buffers))
        (missed_answers (keys buffers) (suc next) count)

-- `sendEmptyFragments` goes on to the first pending request: if missed requests are answered, every
-- declared fragment ID gets one empty fragment for each sequence ID from the next one expected up to
-- but not including that request, in order; and that request is the next one expected.
pub send_empty_fragments-answers :
    (c : Config) (b : FragmentBuffer) (seq ts : ℕ) (rest : Assoc ℕ ℕ) (frags : List Output)
    → c.send_missing_fragments ≡ true
    → b.next_sequence_id ≤ seq
    → seq < 2 ^ 64
    → ((send_empty_fragments c b ((seq, ts) ∷ rest) frags).0.next_sequence_id ≡ seq)
      × ((send_empty_fragments c b ((seq, ts) ∷ rest) frags).1
          ≡ frags
            ++ missed_answers (keys b.data_buffers) b.next_sequence_id (seq - b.next_sequence_id))
unfolding send_empty_fragments
send_empty_fragments-answers c b seq ts rest frags on h l = (
  send_missed_lem c b.data_buffers (seq - b.next_sequence_id) b.next_sequence_id frags (omega arith)
      ∙ omega arith,
  send_missed-answers c b.data_buffers (seq - b.next_sequence_id) b.next_sequence_id frags on
      (omega arith),
)

-- The fragments of all data buffers, in the order of the data buffers.
abbrev pub all_fragments : Assoc ℕ DataBuffer → List Fragment
all_fragments [] = []
all_fragments ((id, d) ∷ rest) = d.fragments ++ all_fragments rest

map-append :
    (f : Fragment → Output) (xs ys : List Fragment) → map f (xs ++ ys) ≡ map f xs ++ map f ys
map-append f [] ys = refl
map-append f (x ∷ xs) ys = ap (λ r. f x ∷ r) (map-append f xs ys)

take_all-answers :
    (next : ℕ) (buffers : Assoc ℕ DataBuffer) (frags : List Output)
    → ((take_all next buffers frags).2 ≡ frags ++ wholes (all_fragments buffers))
      × ((take_all next buffers frags).1 ≡ map_buffers clear_data_buffer buffers)
unfolding take_all
take_all-answers next [] frags = (sym (append-nil frags), refl)
take_all-answers next ((id, d) ∷ rest) frags =
    let further =
      take_all-answers (raise_next next d.fragments) rest (frags ++ wholes d.fragments) in
    (
      further.0
          ∙ append_assoc frags (wholes d.fragments) (wholes (all_fragments rest))
          ∙ ap (λ r. frags ++ r) (sym (map-append whole d.fragments (all_fragments rest))),
      ap (λ r. (id, clear_data_buffer d) ∷ r) further.1,
    )

cleared_lem :
    (buffers : Assoc ℕ DataBuffer) → all_fragments (map_buffers clear_data_buffer buffers) ≡ []
unfolding clear_data_buffer
cleared_lem [] = refl
cleared_lem ((id, d) ∷ rest) = cleared_lem rest

-- Ignored mode hands over every fragment of every data buffer, after what the output held already
-- and in the order of each data buffer, and leaves all data buffers empty.
pub ignored_mode-answers :
    (b : FragmentBuffer) (frags : List Output)
    → ((apply_requests_ignored_mode b frags).1 ≡ frags ++ wholes (all_fragments b.data_buffers))
      × (all_fragments (apply_requests_ignored_mode b frags).0.data_buffers ≡ [])
unfolding apply_requests_ignored_mode
ignored_mode-answers b frags =
    let taken = take_all-answers b.next_sequence_id b.data_buffers frags in
    (taken.0, ap all_fragments taken.1 ∙ cleared_lem b.data_buffers)

-- Every data buffer has answered the request.
abbrev pub AllSent : ℕ → Assoc ℕ DataBuffer → Type 0
AllSent seq = All (λ p. contains seq p.1.windows_sent ≡ true)

fill_data_buffers-AllSent :
    (c : Config) (r : RequestBuffer) (now seq ts : ℕ) (buffers : Assoc ℕ DataBuffer)
    → AllSent seq buffers
    → fill_data_buffers c r now seq ts buffers ≡ (buffers, [])
unfolding fill_data_buffers
fill_data_buffers-AllSent c r now seq ts [] a = refl
fill_data_buffers-AllSent c r now seq ts ((id, d) ∷ rest) a =
    rw (a.0, fill_data_buffers-AllSent c r now seq ts rest a.1) refl

clear-AllSent :
    (seq : ℕ) (buffers : Assoc ℕ DataBuffer)
    → AllSent seq buffers
    → AllSent seq (map_buffers clear_data_buffer buffers)
unfolding clear_data_buffer
clear-AllSent seq [] a = tt
clear-AllSent seq ((id, d) ∷ rest) a = (a.0, clear-AllSent seq rest a.1)

-- The data buffers after fragments arrived, for each fragment ID its own.
abbrev pub with_fragments : (ℕ → List Fragment) → Assoc ℕ DataBuffer → Assoc ℕ DataBuffer
with_fragments arrived [] = []
with_fragments arrived ((id, d) ∷ rest) =
    (id, append_all d (arrived id)) ∷ with_fragments arrived rest

append_all-windows :
    (fs : List Fragment) (d : DataBuffer) → (append_all d fs).windows_sent ≡ d.windows_sent
unfolding append_all
append_all-windows [] d = refl
append_all-windows (f ∷ rest) d = append_all-windows rest _

append-AllSent :
    (seq : ℕ) (arrived : ℕ → List Fragment) (buffers : Assoc ℕ DataBuffer)
    → AllSent seq buffers
    → AllSent seq (with_fragments arrived buffers)
append-AllSent seq arrived [] a = tt
append-AllSent seq arrived ((id, d) ∷ rest) a =
    (rw (append_all-windows (arrived id) d) a.0, append-AllSent seq arrived rest a.1)

-- `Reset` does not forget the windows sent: a request with a sequence ID that every data buffer
-- still counts as answered before the reset gets no answer from any of them after it, with whatever
-- fragments arrive for each fragment ID in between, and they keep these fragments.
pub reset_keeps_windows :
    (c : Config) (r : RequestBuffer) (now seq ts : ℕ) (b : FragmentBuffer) (stop : Bool)
    (arrived : ℕ → List Fragment)
    → AllSent seq b.data_buffers
    → fill_data_buffers c r now seq ts (with_fragments arrived (reset b stop).data_buffers)
      ≡ (with_fragments arrived (reset b stop).data_buffers, [])
unfolding reset
reset_keeps_windows c r now seq ts b stop arrived a =
    fill_data_buffers-AllSent c r now seq ts
      (with_fragments arrived (map_buffers clear_data_buffer b.data_buffers))
      (append-AllSent seq arrived (map_buffers clear_data_buffer b.data_buffers)
        (clear-AllSent seq b.data_buffers a))
