-- ===== src/EventManager/Opened.antt =====
-- Valid states through `getBufferForSequenceID_` and `AddFragment`.
use mathlib.Core.Path.{subst}
use artdaq.Prelude.Ord.{nat_ord}
use artdaq.Map.Laws.{contains-insert}
use artdaq.RequestSender.{RequestSender}
use artdaq.EventManager.{Event, mem, SharedMemory, Config, EventManager, FragmentHeader}
use artdaq.EventManager.Open.{
  new_event, open_event, retry, writable, is_released, open_in, new_buffer,
  get_buffer_for_sequence_id, Found, found, unavailable, already_released, touch_header,
  add_in_buffer, add_found, add_fragment, found_or_new, Added, is_added,
}
use artdaq.Prelude.Words.{u64}
use artdaq.Prelude.{
  ◌==◌, ==_iff, ℕ, ◌≡◌, refl, sym, ap, ◌∙◌, Bool, true, false, ◌||◌, Option, none, some, List, [],
  ◌∷◌, arith, Bool-cases, inl, inr, ◌*◌, if-lem, not,
}
use artdaq.EventManager.Buffers.{find_buffer, check_pending_buffers, update}
use artdaq.EventManager.Owned.{
  is_tracked, IsValid, check_pending-Keeps, Shrinks, memory-IsValid, complete_buffer-Keeps,
  find_buffer-mem,
}

find_buffer-none :
    (events : ℕ → Event) (seq : ℕ) (bs : List ℕ) (x : ℕ)
    → find_buffer events seq bs ≡ none
    → mem x bs ≡ true
    → ((events x).event_sequence == seq) ≡ false
unfolding find_buffer mem
find_buffer-none events seq [] x e h = cc
find_buffer-none events seq (c ∷ rest) x e h =
    ground (arith, find_buffer-none events seq rest x, e, h, ==_iff x c)

module _ (S : SharedMemory) where
  -- What a call for a writable buffer gives: a buffer that was not owned and is now, or nothing.
  abbrev Granted : S.Memory → S.Memory × Option ℕ → Type 0
  Granted s (s', none) = (x : ℕ) → mem x (S.owned s') ≡ mem x (S.owned s)
  Granted s (s', some b) =
      (mem b (S.owned s) ≡ false) × ((x : ℕ) → mem x (S.owned s') ≡ (x == b || mem x (S.owned s)))

  get-Granted : (s : S.Memory) (overwrite : Bool) → Granted s (S.get_buffer_for_writing s overwrite)
  get-Granted s overwrite = go (S.get_buffer_for_writing s overwrite) refl
    where
      go : (r : S.Memory × Option ℕ) → S.get_buffer_for_writing s overwrite ≡ r → Granted s r
      go (s', none) e = λ x. S.writing-none s s' overwrite x e
      go (s', some b) e =
          (S.writing-fresh s s' overwrite b e, λ x. S.writing-owned s s' overwrite b x e)

  retry-Granted :
      (s : S.Memory) (overwrite : Bool) (r : S.Memory × Option ℕ)
      → Granted s r
      → Granted s (retry S overwrite r)
  unfolding retry
  retry-Granted s overwrite (s', some b) g = g
  retry-Granted s overwrite (s', none) g =
      go (S.get_buffer_for_writing s' overwrite) (get-Granted s' overwrite)
    where
      go : (r : S.Memory × Option ℕ) → Granted s' r → Granted s r
      go (t, none) h = λ x. h x ∙ g x
      go (t, some b) h = (sym (g b) ∙ h.0, λ x. h.1 x ∙ ap (λ o. x == b || o) (g x))

  writable-Granted : (c : Config) (s : S.Memory) → Granted s (writable S c s)
  unfolding writable
  writable-Granted c s =
      retry-Granted s c.overwrite_mode (S.get_buffer_for_writing s false) (get-Granted s false)

  -- No buffer of the state has an event with the sequence ID.
  abbrev IsNew : EventManager S.Memory → ℕ → Type 0
  IsNew m seq = (x : ℕ) → is_tracked S m x ≡ true → ((m.events x).event_sequence == seq) ≡ false

  open_event-IsValid :
      (c : Config) (now : ℕ) (m : EventManager S.Memory) (s : S.Memory) (b seq ts : ℕ)
      → Granted m.memory (s, some b)
      → IsNew m seq
      → IsValid S m
      → IsValid S (open_event S c now m s b seq ts)
  unfolding open_event new_event
  open_event-IsValid c now m s b seq ts g n v = record {
    tracked = λ x.
        g.1 x ∙ ground (arith, v.tracked x, contains-insert x b tt m.active_buffers, ==_iff x b);
    apart = λ x.
        ground
          (arith, v.apart x, v.tracked x, g.0, contains-insert x b tt m.active_buffers, ==_iff x b);
    distinct = λ x y hx hy e. ground (
      arith,
      n x,
      n y,
      v.distinct x y,
      contains-insert x b tt m.active_buffers,
      contains-insert y b tt m.active_buffers,
      hx,
      hy,
      e,
    );
  }

  find_buffer-some :
      (events : ℕ → Event) (seq b : ℕ) (bs : List ℕ)
      → mem b bs ≡ true
      → (events b).event_sequence ≡ seq
      → ((x : ℕ) → mem x bs ≡ true → (events x).event_sequence ≡ seq → x ≡ b)
      → find_buffer events seq bs ≡ some b
  unfolding find_buffer mem
  find_buffer-some events seq b [] h e u = cc
  find_buffer-some events seq b (c ∷ rest) h e u = ground (
    arith,
    ==_iff c c,
    ==_iff b c,
    u c,
    find_buffer-some events seq b rest,
    h,
    e,
    λ (x : ℕ) (k : mem x rest ≡ true). u x (ground (arith, k)),
  )

  -- What `getBufferForSequenceID_` leaves: a valid state, and with a buffer that the event of the
  -- sequence ID has and that a further call finds.
  abbrev pub Got : ℕ → EventManager S.Memory × Found → Type 0
  Got seq (n, found b) =
      IsValid S n
      × (is_tracked S n b ≡ true)
      × ((n.events b).event_sequence ≡ seq)
      × (find_buffer n.events seq (S.owned n.memory) ≡ some b)
  Got seq (n, unavailable) = IsValid S n
  Got seq (n, already_released) = IsValid S n

  valid-finds :
      (m : EventManager S.Memory) (seq b : ℕ)
      → IsValid S m
      → is_tracked S m b ≡ true
      → (m.events b).event_sequence ≡ seq
      → find_buffer m.events seq (S.owned m.memory) ≡ some b
  valid-finds m seq b v h e =
      find_buffer-some m.events seq b (S.owned m.memory) (v.tracked b ∙ h) e
        (λ x k q. v.distinct x b (sym (v.tracked x) ∙ k) h (q ∙ sym e))

  opened-Got :
      (c : Config) (now : ℕ) (m : EventManager S.Memory) (s : S.Memory) (b seq ts : ℕ)
      → Granted m.memory (s, some b)
      → IsNew m seq
      → IsValid S m
      → Got seq (open_event S c now m s b seq ts, found b)
  unfolding open_event new_event
  opened-Got c now m s b seq ts g n v =
      let valid = open_event-IsValid c now m s b seq ts g n v in
      let tracked : is_tracked S (open_event S c now m s b seq ts) b ≡ true =
        ground (arith, contains-insert b b tt m.active_buffers, ==_iff b b) in
      let named : ((open_event S c now m s b seq ts).events b).event_sequence ≡ seq =
        ground (arith, ==_iff b b) in
      (
        valid,
        tracked,
        named,
        valid-finds (open_event S c now m s b seq ts) seq b valid tracked named,
      )

  open_in-Got :
      (c : Config) (now : ℕ) (m : EventManager S.Memory) (seq ts : ℕ) (r : S.Memory × Option ℕ)
      → Granted m.memory r
      → IsNew m seq
      → IsValid S m
      → Got seq (open_in S c now m seq ts r)
  unfolding open_in
  open_in-Got c now m seq ts (s, some b) g n v =
      opened-Got c now m (S.increment_write_pos s b c.event_header_size).0 b seq ts
        (g.0, λ x. S.increment-owned s b c.event_header_size x ∙ g.1 x) n v
  open_in-Got c now m seq ts (s, none) g n v = memory-IsValid S m s g v

  shrunk-IsNew : (m n : EventManager S.Memory) (seq : ℕ) → Shrinks S m n → IsNew m seq → IsNew n seq
  shrunk-IsNew m n seq s new x h =
      subst (λ es. ((es x).event_sequence == seq) ≡ false) (sym s.same_events) (new x (s.kept x h))

  new_buffer-Got :
      (c : Config) (now : ℕ) (m : EventManager S.Memory) (create : Bool) (seq ts : ℕ)
      → IsNew m seq
      → IsValid S m
      → Got seq (new_buffer S c now m create seq ts)
  unfolding new_buffer
  new_buffer-Got c now m create seq ts n v =
      let checked = check_pending_buffers S c m in
      let kept = check_pending-Keeps S c m v in
      let opened =
        open_in-Got c now checked seq ts (writable S c checked.memory)
          (writable-Granted c checked.memory) (shrunk-IsNew m checked seq kept.1 n) kept.0 in
      elim (Bool-cases (is_released seq m.released_events m.released_incomplete_events)) [
        | inl old ↦ rw old v
        | inr fresh ↦ elim (Bool-cases create) [
          | inl making ↦ rw (fresh, making) opened
          | inr looking ↦ rw (fresh, looking) v
        ]
      ]

  -- `getBufferForSequenceID_` keeps the state valid. A buffer that it answers belongs to an open or
  -- pending event, the event has the sequence ID, and the buffer is the one that a search for the
  -- sequence ID finds from then on.
  pub get_buffer-Got :
      (c : Config) (now : ℕ) (m : EventManager S.Memory) (create : Bool) (seq ts : ℕ)
      → IsValid S m
      → Got seq (get_buffer_for_sequence_id S c now m create seq ts)
  unfolding get_buffer_for_sequence_id found_or_new
  get_buffer-Got c now m create seq ts v = go (find_buffer m.events seq (S.owned m.memory)) refl
    where
      go :
          (o : Option ℕ)
          → find_buffer m.events seq (S.owned m.memory) ≡ o
          → Got seq (found_or_new S c now m create seq ts o)
      go none e =
          new_buffer-Got c now m create seq ts
            (λ x h. find_buffer-none m.events seq (S.owned m.memory) x e (v.tracked x ∙ h)) v
      go (some b) e =
          let at = find_buffer-mem S m.events seq (S.owned m.memory) b e in
          (v, sym (v.tracked b) ∙ at.0, at.1, e)

  found_again :
      (c : Config) (now : ℕ) (n : EventManager S.Memory) (create : Bool) (seq ts b : ℕ)
      → find_buffer n.events seq (S.owned n.memory) ≡ some b
      → get_buffer_for_sequence_id S c now n create seq ts ≡ (n, found b)
  unfolding get_buffer_for_sequence_id found_or_new
  found_again c now n create seq ts b e = ap (found_or_new S c now n create seq ts) e

  -- Asking for the same sequence ID again finds the same buffer and changes nothing.
  pub get_buffer_again :
      (c : Config) (now later : ℕ) (m : EventManager S.Memory) (create again : Bool)
      (seq ts ts' b : ℕ)
      → IsValid S m
      → (get_buffer_for_sequence_id S c now m create seq ts).1 ≡ found b
      → get_buffer_for_sequence_id S c later
          (get_buffer_for_sequence_id S c now m create seq ts).0
          again
          seq
          ts'
        ≡ ((get_buffer_for_sequence_id S c now m create seq ts).0, found b)
  get_buffer_again c now later m create again seq ts ts' b v e =
      go (get_buffer_for_sequence_id S c now m create seq ts)
        (get_buffer-Got c now m create seq ts v) e
    where
      go :
          (r : EventManager S.Memory × Found)
          → Got seq r
          → r.1 ≡ found b
          → get_buffer_for_sequence_id S c later r.0 again seq ts' ≡ (r.0, found b)
      go (n, found b') g q = found_again c later n again seq ts' b' g.3 ∙ ap (λ r. (n, r)) q
      go (n, unavailable) g q = cc
      go (n, already_released) g q = cc

  edited_name :
      (m : EventManager S.Memory) (b : ℕ) (e : Event)
      → e.event_sequence ≡ (m.events b).event_sequence
      → (x : ℕ) → (update m.events b e x).event_sequence ≡ (m.events x).event_sequence
  edited_name m b e q x = ground (arith, ==_iff x b, q)

  -- An event of an open or pending buffer changes, and keeps its sequence ID; the memory is written.
  pub edited-IsValid :
      (m : EventManager S.Memory) (s : S.Memory) (b : ℕ) (e : Event)
      → ((x : ℕ) → mem x (S.owned s) ≡ mem x (S.owned m.memory))
      → e.event_sequence ≡ (m.events b).event_sequence
      → IsValid S m
      → IsValid S (record m { memory = s; events = update m.events b e })
  edited-IsValid m s b e h q v = record {
    tracked = λ x. h x ∙ v.tracked x;
    apart = v.apart;
    distinct = λ x y hx hy k.
        v.distinct x y hx hy (sym (edited_name m b e q x) ∙ k ∙ edited_name m b e q y);
  }

  requests-IsValid :
      (m : EventManager S.Memory) (r : Option RequestSender)
      → IsValid S m
      → IsValid S (record m { requests = r })
  requests-IsValid m r v = record { tracked = v.tracked; apart = v.apart; distinct = v.distinct }

  add_in_buffer-IsValid :
      (c : Config) (now : ℕ) (m : EventManager S.Memory) (b : ℕ) (f : FragmentHeader)
      → is_tracked S m b ≡ true
      → IsValid S m
      → IsValid S (add_in_buffer S c now m b f).0
  unfolding add_in_buffer touch_header
  add_in_buffer-IsValid c now m b f h v =
      let grown = S.increment-owned m.memory b (u64 (f.word_count * c.word_size)) in
      if-lem (λ (r : EventManager S.Memory × Added). IsValid S r.0)
        (S.increment_write_pos m.memory b (u64 (f.word_count * c.word_size))).1 _ _
        (requests-IsValid _ _
          (complete_buffer-Keeps S c _ b h (edited-IsValid m _ b _ grown refl v)).0)
        (edited-IsValid m _ b _ grown refl v)

  add_found-IsValid :
      (c : Config) (now : ℕ) (f : FragmentHeader) (r : EventManager S.Memory × Found)
      → Got f.sequence_id r
      → IsValid S (add_found S c now f r).0
  unfolding add_found
  add_found-IsValid c now f (m, found b) g = add_in_buffer-IsValid c now m b f g.1 g.0
  add_found-IsValid c now f (m, unavailable) g = g
  add_found-IsValid c now f (m, already_released) g = g

  -- `AddFragment` keeps the state valid, whatever comes of the fragment.
  pub add_fragment-IsValid :
      (c : Config) (now : ℕ) (m : EventManager S.Memory) (f : FragmentHeader)
      → IsValid S m
      → IsValid S (add_fragment S c now m f).0
  unfolding add_fragment
  add_fragment-IsValid c now m f v =
      let got = get_buffer_for_sequence_id S c now m true f.sequence_id f.timestamp in
      if-lem (λ r. IsValid S r.0) (not m.running) (m, is_added) (add_found S c now f got) v
        (add_found-IsValid c now f got (get_buffer-Got c now m true f.sequence_id f.timestamp v))
