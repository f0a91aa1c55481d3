-- ===== src/EventManager/Owned.antt =====
-- The buffers that the manager owns are those of its open and its pending events.
use mathlib.Core.Path.{subst}
use artdaq.Prelude.Ord.{nat_ord}
use artdaq.Map.Laws.{contains-insert, contains-erase}
use artdaq.EventManager.{Event, EventManager, SharedMemory, mem, Config}
use artdaq.Prelude.{
  ℕ, ◌≡◌, refl, sym, ◌∙◌, Bool, true, false, ◌&&◌, ◌||◌, arith, if◌then◌else◌, ==_iff, Bool-cases,
  inl, inr, List, [], ◌∷◌, ltb, All, ◌==◌, some,
}
use artdaq.Map.{contains, insert, erase, keys, KeySet}
use artdaq.EventManager.Buffers.{
  time_out, is_timed_out, time_out_all, release, insert_by, sort_by, release_all, release_order,
  send_tokens, check_pending_buffers, retire, complete_buffer, find_buffer,
}

module _ (S : SharedMemory) where
  -- `x` is a buffer of an open or a pending event.
  abbrev pub is_tracked : EventManager S.Memory → ℕ → Bool
  is_tracked m x = contains x m.active_buffers || contains x m.pending_buffers

  -- The buffers owned are those of open and pending events, no event is both, and no two have the
  -- same sequence ID.
  pub record IsValid (m : EventManager S.Memory) : Type 0 where
    pub tracked : (x : ℕ) → mem x (S.owned m.memory) ≡ is_tracked m x
    pub apart : (x : ℕ) → (contains x m.active_buffers && contains x m.pending_buffers) ≡ false
    pub distinct :
        (x y : ℕ)
        → is_tracked m x ≡ true
        → is_tracked m y ≡ true
        → (m.events x).event_sequence ≡ (m.events y).event_sequence
        → x ≡ y

  -- A step that opens no event, and leaves the owned buffers' events as they are.
  pub record Shrinks (m n : EventManager S.Memory) : Type 0 where
    pub kept : (x : ℕ) → is_tracked n x ≡ true → is_tracked m x ≡ true
    pub same_events : n.events ≡ m.events

  Shrinks-refl : (m : EventManager S.Memory) → Shrinks m m
  Shrinks-refl m = record { kept = λ x h. h; same_events = refl }

  Shrinks-trans : (l m n : EventManager S.Memory) → Shrinks l m → Shrinks m n → Shrinks l n
  Shrinks-trans l m n a b = record {
    kept = λ x h. a.kept x (b.kept x h);
    same_events = b.same_events ∙ a.same_events;
  }

  shrunk_distinct :
      (m n : EventManager S.Memory)
      → Shrinks m n
      → IsValid m
      → (x y : ℕ) → is_tracked n x ≡ true
      → is_tracked n y ≡ true
      → (n.events x).event_sequence ≡ (n.events y).event_sequence
      → x ≡ y
  shrunk_distinct m n s v x y hx hy e =
      v.distinct x y (s.kept x hx) (s.kept y hy)
        (subst (λ es. (es x).event_sequence ≡ (es y).event_sequence) s.same_events e)

  -- A buffer goes from the open to the pending events.
  abbrev Moved : ℕ → EventManager S.Memory → EventManager S.Memory → Type 0
  Moved b m n =
      (n.active_buffers ≡ erase b m.active_buffers)
      × (n.pending_buffers ≡ insert b tt m.pending_buffers)
      × (n.events ≡ m.events)
      × ((x : ℕ) → mem x (S.owned n.memory) ≡ mem x (S.owned m.memory))

  Moved-tracked :
      (b : ℕ) (m n : EventManager S.Memory) (x : ℕ)
      → is_tracked m b ≡ true
      → Moved b m n
      → is_tracked n x ≡ is_tracked m x
  Moved-tracked b m n x h d =
      rw (d.0, d.1)
        (ground
          (arith, contains-erase x b m.active_buffers, contains-insert x b tt m.pending_buffers, h))

  Moved-Shrinks :
      (b : ℕ) (m n : EventManager S.Memory) → is_tracked m b ≡ true → Moved b m n → Shrinks m n
  Moved-Shrinks b m n h d = record {
    kept = λ x k. sym (Moved-tracked b m n x h d) ∙ k;
    same_events = d.2;
  }

  Moved-IsValid :
      (b : ℕ) (m n : EventManager S.Memory)
      → is_tracked m b ≡ true
      → Moved b m n
      → IsValid m
      → IsValid n
  Moved-IsValid b m n h d v = record {
    tracked = λ x. d.3 x ∙ v.tracked x ∙ sym (Moved-tracked b m n x h d);
    apart = λ x.
        rw (d.0, d.1)
          (ground (
            arith,
            contains-erase x b m.active_buffers,
            contains-insert x b tt m.pending_buffers,
            v.apart x,
          ));
    distinct = shrunk_distinct m n (Moved-Shrinks b m n h d) v;
  }

  -- Only the memory changes, and not which buffers are owned.
  pub memory-IsValid :
      (m : EventManager S.Memory) (s : S.Memory)
      → ((x : ℕ) → mem x (S.owned s) ≡ mem x (S.owned m.memory))
      → IsValid m
      → IsValid (record m { memory = s })
  memory-IsValid m s h v = record {
    tracked = λ x. h x ∙ v.tracked x;
    apart = v.apart;
    distinct = v.distinct;
  }

  time_out-Moved : (c : Config) (m : EventManager S.Memory) (b : ℕ) → Moved b m (time_out S c m b)
  unfolding time_out
  time_out-Moved c m b = (refl, refl, refl, λ x. refl)

  pub is_timed_out-tracked :
      (m : EventManager S.Memory) (b : ℕ) (stale : Bool)
      → is_timed_out S m b stale ≡ true
      → is_tracked m b ≡ true
  unfolding is_timed_out
  is_timed_out-tracked m b stale h = ground arith

  -- What holds after a step that opens nothing.
  abbrev pub Keeps : EventManager S.Memory → EventManager S.Memory → Type 0
  Keeps m n = IsValid n × Shrinks m n

  Keeps-trans : (l m n : EventManager S.Memory) → Keeps l m → Keeps m n → Keeps l n
  Keeps-trans l m n a b = (b.0, Shrinks-trans l m n a.1 b.1)

  Moved-Keeps :
      (b : ℕ) (m n : EventManager S.Memory)
      → is_tracked m b ≡ true
      → Moved b m n
      → IsValid m
      → Keeps m n
  Moved-Keeps b m n h d v = (Moved-IsValid b m n h d v, Moved-Shrinks b m n h d)

  time_out_if-Keeps :
      (c : Config) (m : EventManager S.Memory) (b : ℕ) (stale : Bool)
      → IsValid m
      → Keeps m (if is_timed_out S m b stale then time_out S c m b else m)
  time_out_if-Keeps c m b stale v = elim (Bool-cases (is_timed_out S m b stale)) [
    | inl late ↦ rw late (
        Moved-Keeps b m (time_out S c m b) (is_timed_out-tracked m b stale late)
          (time_out-Moved c m b) v)
    | inr early ↦ rw early (v, Shrinks-refl m)
  ]

  pub memory-Keeps :
      (m : EventManager S.Memory) (s : S.Memory)
      → ((x : ℕ) → mem x (S.owned s) ≡ mem x (S.owned m.memory))
      → IsValid m
      → Keeps m (record m { memory = s })
  memory-Keeps m s h v = (memory-IsValid m s h v, record { kept = λ x k. k; same_events = refl })

  time_out_all-Keeps :
      (c : Config) (bs : List ℕ) (m : EventManager S.Memory)
      → IsValid m
      → Keeps m (time_out_all S c bs m)
  unfolding time_out_all
  time_out_all-Keeps c [] m v = (v, Shrinks-refl m)
  time_out_all-Keeps c (b ∷ rest) m v =
      let reset = S.reset_buffer m.memory b in
      let after = record m { memory = reset.0 } in
      let next = if is_timed_out S after b reset.1 then time_out S c after b else after in
      let first = memory-Keeps m reset.0 (S.reset-owned m.memory b) v in
      let second = time_out_if-Keeps c after b reset.1 first.0 in
      let third = time_out_all-Keeps c rest next second.0 in
      Keeps-trans m after (time_out_all S c rest next) first
        (Keeps-trans after next (time_out_all S c rest next) second third)

  release-Keeps :
      (m : EventManager S.Memory) (b : ℕ)
      → contains b m.active_buffers ≡ false
      → IsValid m
      → Keeps m (release S m b)
  unfolding release
  release-Keeps m b h v =
      let shrinks : Shrinks m (release S m b) = record {
        kept = λ x k. ground (arith, contains-erase x b m.pending_buffers, k);
        same_events = refl;
      } in
      (
        record {
          tracked = λ x. ground (
            arith,
            S.full-owned m.memory b x,
            v.tracked x,
            contains-erase x b m.pending_buffers,
            ==_iff x b,
            h,
          );
          apart = λ x. ground (arith, v.apart x, contains-erase x b m.pending_buffers);
          distinct = shrunk_distinct m (release S m b) shrinks v;
        },
        shrinks,
      )

  -- None of the buffers is open.
  abbrev AreClosed : EventManager S.Memory → List ℕ → Type 0
  AreClosed m = All (λ b. contains b m.active_buffers ≡ false)

  release-active :
      (m : EventManager S.Memory) (b : ℕ) → (release S m b).active_buffers ≡ m.active_buffers
  unfolding release
  release-active m b = refl

  release_all-Keeps :
      (bs : List ℕ) (m : EventManager S.Memory)
      → AreClosed m bs
      → IsValid m
      → Keeps m (release_all S bs m)
  unfolding release_all
  release_all-Keeps [] m a v = (v, Shrinks-refl m)
  release_all-Keeps (b ∷ rest) m a v =
      let first = release-Keeps m b a.0 v in
      let closed : AreClosed (release S m b) rest =
        subst (λ k. All (λ b'. contains b' k ≡ false) rest) (sym (release-active m b)) a.1 in
      Keeps-trans m (release S m b) (release_all S rest (release S m b)) first
        (release_all-Keeps rest (release S m b) closed first.0)

  All-insert_by :
      (P : ℕ → Type 0) (events : ℕ → Event) (b : ℕ) (bs : List ℕ)
      → P b
      → All P bs
      → All P (insert_by events b bs)
  unfolding insert_by
  All-insert_by P events b [] h a = (h, tt)
  All-insert_by P events b (c ∷ rest) h a =
      elim (Bool-cases (ltb (events c).event_sequence (events b).event_sequence)) [
        | inl later ↦ rw later (a.0, All-insert_by P events b rest h a.1)
        | inr here ↦ rw here (h, a)
      ]

  All-sort_by :
      (P : ℕ → Type 0) (events : ℕ → Event) (bs : List ℕ) → All P bs → All P (sort_by events bs)
  unfolding sort_by
  All-sort_by P events [] a = tt
  All-sort_by P events (b ∷ rest) a =
      All-insert_by P events b (sort_by events rest) a.0 (All-sort_by P events rest a.1)

  keys-closed :
      (m : EventManager S.Memory) (seen : KeySet ℕ)
      → ((x : ℕ) → contains x seen ≡ true → contains x m.pending_buffers ≡ true)
      → IsValid m
      → AreClosed m (keys seen)
  unfolding contains
  keys-closed m [] h v = tt
  keys-closed m ((k, u) ∷ rest) h v =
      (ground (arith, v.apart k, h k), keys-closed m rest (λ x e. h x (ground arith)) v)

  release_order-closed : (m : EventManager S.Memory) → IsValid m → AreClosed m (release_order S m)
  unfolding release_order
  release_order-closed m v =
      All-sort_by (λ b. contains b m.active_buffers ≡ false) m.events (keys m.pending_buffers)
        (keys-closed m m.pending_buffers (λ x e. e) v)

  send_tokens-Keeps :
      (c : Config) (m : EventManager S.Memory) → IsValid m → Keeps m (send_tokens S c m)
  unfolding send_tokens
  send_tokens-Keeps c m v = (
    record { tracked = v.tracked; apart = v.apart; distinct = v.distinct },
    record { kept = λ x k. k; same_events = refl },
  )

  -- `check_pending_buffers_` keeps the state valid, opens no event and changes none.
  pub check_pending-Keeps :
      (c : Config) (m : EventManager S.Memory) → IsValid m → Keeps m (check_pending_buffers S c m)
  unfolding check_pending_buffers
  check_pending-Keeps c m v =
      let timed = time_out_all S c (S.owned m.memory) m in
      let released = release_all S (release_order S timed) timed in
      let first = time_out_all-Keeps c (S.owned m.memory) m v in
      let second =
        release_all-Keeps (release_order S timed) timed (release_order-closed timed first.0)
          first.0 in
      Keeps-trans m timed (send_tokens S c released) first (
        Keeps-trans timed released (send_tokens S c released) second
          (send_tokens-Keeps c released second.0))

  retire-Moved : (c : Config) (m : EventManager S.Memory) (b : ℕ) → Moved b m (retire S c m b)
  unfolding retire
  retire-Moved c m b = (refl, refl, refl, λ x. refl)

  -- `complete_buffer_` keeps the state valid, for a buffer that is owned.
  pub complete_buffer-Keeps :
      (c : Config) (m : EventManager S.Memory) (b : ℕ)
      → is_tracked m b ≡ true
      → IsValid m
      → Keeps m (complete_buffer S c m b)
  unfolding complete_buffer
  complete_buffer-Keeps c m b h v = elim (Bool-cases (m.events b).is_complete) [
    | inl complete ↦
        let first = Moved-Keeps b m (retire S c m b) h (retire-Moved c m b) v in
        rw complete (
          Keeps-trans m (retire S c m b) (check_pending_buffers S c (retire S c m b)) first
            (check_pending-Keeps c (retire S c m b) first.0))
    | inr incomplete ↦ rw incomplete (check_pending-Keeps c m v)
  ]

  pub find_buffer-mem :
      (events : ℕ → Event) (seq : ℕ) (bs : List ℕ) (b : ℕ)
      → find_buffer events seq bs ≡ some b
      → (mem b bs ≡ true) × ((events b).event_sequence ≡ seq)
  unfolding find_buffer mem
  find_buffer-mem events seq [] b e = cc
  find_buffer-mem events seq (c ∷ rest) b e = elim (Bool-cases ((events c).event_sequence == seq)) [
    | inl here ↦ ground (arith, e, here)
    | inr there ↦ ground (arith, find_buffer-mem events seq rest b, e, there)
  ]
