-- ===== src/FragmentBuffer/Sequence/Contents.antt =====
-- Which fragments the SequenceID mode of `applyRequests` takes out of the data buffers.
use artdaq.Prelude.Ord.{nat_ord}
use artdaq.Prelude.{
  ◌==◌, ℕ, ◌≡◌, refl, sym, ap, ◌∙◌, Bool, true, false, List, [], ◌∷◌, ◌++◌, arith, if◌then◌else◌,
  Bool-cases, inl, inr, not, ◌||◌,
}
use artdaq.Prelude.Words.{sub64}
use artdaq.Map.{contains, Assoc}
use artdaq.Map.Laws.{contains-insert}
use artdaq.FragmentBuffer.{DataBuffer, Fragment}
use artdaq.FragmentBuffer.Sequence.{
  extract, note_found, search_data_buffer, search_data_buffers, raise_highest,
}
use artdaq.FragmentBuffer.Window.Contents.{keep, keep_not}

abbrev pub has_sequence : ℕ → Fragment → Bool
has_sequence seq f = f.sequence_id == seq

extract-answers :
    (seq : ℕ) (fs : List Fragment) (bytes : ℕ)
    → ((extract seq fs bytes).2 ≡ keep (has_sequence seq) fs)
      × ((extract seq fs bytes).0 ≡ keep_not (has_sequence seq) fs)
unfolding extract
extract-answers seq [] bytes = (refl, refl)
extract-answers seq (f ∷ rest) bytes =
    ground
      (arith, extract-answers seq rest bytes, extract-answers seq rest (sub64 bytes f.size_bytes))

none_kept : (p : Fragment → Bool) (fs : List Fragment) → keep p fs ≡ [] → keep_not p fs ≡ fs
none_kept p [] h = refl
none_kept p (f ∷ rest) h = ground (arith, none_kept p rest)

abbrev pub is_nil : List Fragment → Bool
is_nil [] = true
is_nil (f ∷ rest) = false

-- What the data buffers that have not answered the request hold with its sequence ID.
abbrev pub all_with_sequence : ℕ → Assoc ℕ DataBuffer → List Fragment
all_with_sequence seq [] = []
all_with_sequence seq ((id, d) ∷ rest) =
    (if contains seq d.windows_sent then [] else keep (has_sequence seq) d.fragments)
    ++ all_with_sequence seq rest

-- A data buffer after the request, against the one before: unless it had answered the request, it has
-- lost its fragments with the sequence ID and no other, and it has answered now if there were any.
abbrev pub Answered : ℕ → DataBuffer → DataBuffer → Type 0
Answered seq d e =
    (e.fragments ≡ (
      if contains seq d.windows_sent then d.fragments else keep_not (has_sequence seq) d.fragments))
    × (contains seq e.windows_sent
        ≡ (contains seq d.windows_sent || not (is_nil (keep (has_sequence seq) d.fragments))))

abbrev pub AllAnswered : ℕ → Assoc ℕ DataBuffer → Assoc ℕ DataBuffer → Type 0
AllAnswered seq [] [] = Unit
AllAnswered seq [] (q ∷ after) = ⊥
AllAnswered seq (p ∷ before) [] = ⊥
AllAnswered seq ((id, d) ∷ before) ((id', e) ∷ after) =
    (id ≡ id') × Answered seq d e × AllAnswered seq before after

note_found-Answered :
    (now seq : ℕ) (d : DataBuffer) (left : List Fragment × ℕ) (found : List Fragment)
    → contains seq d.windows_sent ≡ false
    → found ≡ keep (has_sequence seq) d.fragments
    → left.0 ≡ keep_not (has_sequence seq) d.fragments
    → Answered seq d (raise_highest seq (note_found now seq left found d))
unfolding note_found raise_highest
note_found-Answered now seq d left [] c f l =
    rw (c, sym f) (sym (none_kept (has_sequence seq) d.fragments (sym f)), refl)
note_found-Answered now seq d left (g ∷ more) c f l =
    rw (c, sym f) (l, contains-insert seq seq now d.windows_sent ∙ ground arith)

sent-Answered :
    (seq : ℕ) (d : DataBuffer)
    → contains seq d.windows_sent ≡ true
    → Answered seq d (raise_highest seq d)
unfolding raise_highest
sent-Answered seq d h = (rw h refl, rw h refl)

-- In SequenceID mode, the search for a request goes over every data buffer that has not answered it
-- yet: it takes out exactly the fragments with the sequence ID of the request, in the order of the data
-- buffers and of their fragments, and leaves exactly the others; and a data buffer counts as having
-- answered afterwards if it did before or had such a fragment.
pub search-answers :
    (now seq : ℕ) (buffers : Assoc ℕ DataBuffer)
    → ((search_data_buffers now seq buffers).1 ≡ all_with_sequence seq buffers)
      × AllAnswered seq buffers (search_data_buffers now seq buffers).0
unfolding search_data_buffers search_data_buffer
search-answers now seq [] = (refl, tt)
search-answers now seq ((id, d) ∷ rest) =
    let others = search-answers now seq rest in
    let taken = extract-answers seq d.fragments d.depth_bytes in
    elim (Bool-cases (contains seq d.windows_sent)) [
      | inl sent ↦
          let answered = sent-Answered seq d sent in rw sent (others.0, (refl, answered, others.1))
      | inr unsent ↦
          let answered = note_found-Answered now seq d _ _ unsent taken.0 taken.1 in
          rw unsent (
            ap (λ l. l ++ (search_data_buffers now seq rest).1) taken.0
                ∙ ap (λ r. keep (has_sequence seq) d.fragments ++ r) others.0,
            (refl, answered, others.1),
          )
    ]
