-- ===== src/EventManager/EndOfData.antt =====
-- `endOfData`: what becomes of the events that are still open.
use mathlib.Core.Path.{subst}
use artdaq.Prelude.Ord.{nat_ord}
use artdaq.RequestSender.{RequestSender}
use artdaq.EventManager.{EventManager, SharedMemory, Config}
use artdaq.Prelude.{
  length, ℕ, zero, suc, ◌≡◌, refl, sym, ◌∙◌, Bool, false, List, [], ◌∷◌, if◌then◌else◌,
}
use artdaq.Map.{KeySet}
use artdaq.EventManager.Buffers.{
  is_timed_out, time_out, time_out_all, release_all, release_order, send_tokens,
  check_pending_buffers, complete_buffer, sort_by,
}
use artdaq.EventManager.Run.{start_run, flush_first, flush, end_of_data}

module _ (S : SharedMemory) where
  none_pending :
      (m : EventManager S.Memory) → m.pending_buffers ≡ [] → release_all S (release_order S m) m ≡ m
  unfolding release_all release_order sort_by
  none_pending m p = rw p refl

-- In a quiet memory no buffer has timed out, and to look for one leaves it quiet.
module _ (S : SharedMemory) (Quiet : S.Memory → Type 0)
    (quiet : (s : S.Memory) (b : ℕ)
      → Quiet s
      → ((S.reset_buffer s b).1 ≡ false) × Quiet (S.reset_buffer s b).0) where
  -- No event is complete.
  abbrev pub AllOpen : EventManager S.Memory → Type 0
  AllOpen m = (b : ℕ) → (m.events b).is_complete ≡ false

  -- The same events are open and pending, nothing about them has changed, and none was counted as
  -- released; the memory is quiet.
  abbrev Kept : EventManager S.Memory → EventManager S.Memory → Type 0
  Kept m n =
      (n.active_buffers ≡ m.active_buffers)
      × (n.events ≡ m.events)
      × (n.pending_buffers ≡ m.pending_buffers)
      × (n.run_event_count ≡ m.run_event_count)
      × Quiet n.memory

  Kept-trans : (l m n : EventManager S.Memory) → Kept l m → Kept m n → Kept l n
  Kept-trans l m n h k = (k.0 ∙ h.0, k.1 ∙ h.1, k.2 ∙ h.2, k.3 ∙ h.3, k.4)

  time_out-Kept :
      (c : Config) (m : EventManager S.Memory) (b : ℕ) (stale : Bool)
      → stale ≡ false
      → Quiet m.memory
      → Kept m (if is_timed_out S m b stale then time_out S c m b else m)
  unfolding is_timed_out
  time_out-Kept c m b stale h q = rw h (refl, refl, refl, refl, q)

  time_out_all-Kept :
      (c : Config) (bs : List ℕ) (m : EventManager S.Memory)
      → Quiet m.memory
      → Kept m (time_out_all S c bs m)
  unfolding time_out_all
  time_out_all-Kept c [] m q = (refl, refl, refl, refl, q)
  time_out_all-Kept c (b ∷ rest) m q =
      let reset = S.reset_buffer m.memory b in
      let after = record m { memory = reset.0 } in
      let next = if is_timed_out S after b reset.1 then time_out S c after b else after in
      let still = quiet m.memory b q in
      let first = time_out-Kept c after b reset.1 still.0 still.1 in
      let later = time_out_all-Kept c rest next first.4 in
      Kept-trans m next (time_out_all S c rest next) (first.0, first.1, first.2, first.3, first.4)
        later

  check_pending-Kept :
      (c : Config) (m : EventManager S.Memory)
      → m.pending_buffers ≡ []
      → Quiet m.memory
      → Kept m (check_pending_buffers S c m)
  unfolding check_pending_buffers send_tokens
  check_pending-Kept c m p q =
      let timed = time_out_all S c (S.owned m.memory) m in
      let kept = time_out_all-Kept c (S.owned m.memory) m q in
      rw (none_pending S timed (kept.2 ∙ p)) kept

  complete_buffer-Kept :
      (c : Config) (m : EventManager S.Memory) (b : ℕ)
      → (m.events b).is_complete ≡ false
      → m.pending_buffers ≡ []
      → Quiet m.memory
      → Kept m (complete_buffer S c m b)
  unfolding complete_buffer
  complete_buffer-Kept c m b h p q = rw h (check_pending-Kept c m p q)

  flush_first-Kept :
      (c : Config) (open_buffers : KeySet ℕ) (m : EventManager S.Memory)
      → AllOpen m
      → m.pending_buffers ≡ []
      → Quiet m.memory
      → Kept m (flush_first S c open_buffers m)
  unfolding flush_first
  flush_first-Kept c [] m h p q = (refl, refl, refl, refl, q)
  flush_first-Kept c ((b, u) ∷ rest) m h p q = complete_buffer-Kept c m b (h b) p q

  flush-Kept :
      (c : Config) (counter : ℕ) (m : EventManager S.Memory)
      → AllOpen m
      → m.pending_buffers ≡ []
      → Quiet m.memory
      → Kept m (flush S c counter m)
  unfolding flush
  flush-Kept c zero m h p q = (refl, refl, refl, refl, q)
  flush-Kept c (suc counter) m h p q =
      let next = flush_first S c m.active_buffers m in
      let first = flush_first-Kept c m.active_buffers m h p q in
      let still_open = λ (b : ℕ). subst (λ es. (es b).is_complete ≡ false) (sym first.1) (h b) in
      Kept-trans m next (flush S c counter next) first
        (flush-Kept c counter next still_open (first.2 ∙ p) first.4)

  -- The state after the wait for the writers.
  abbrev pub waited :
      (EventManager S.Memory → EventManager S.Memory)
      → EventManager S.Memory
      → EventManager S.Memory
  waited written m =
      written (record m { running = false; init_fragments = []; received_init_frags = [] })

  -- Where, after the wait for the writers, no event is complete or pending, and the memory finds no
  -- buffer timed out while `endOfData` flushes: `endOfData` counts no event as released and leaves
  -- none pending, and after it and the start of the next run the same events are open as before.
  pub end_of_data-keeps_open :
      (c : Config) (written : EventManager S.Memory → EventManager S.Memory)
      (drained : S.Memory → S.Memory) (run : ℕ) (sender : RequestSender)
      (use_routing_manager : Bool) (m : EventManager S.Memory)
      → AllOpen (waited written m)
      → (waited written m).pending_buffers ≡ []
      → Quiet (waited written m).memory
      → let after = end_of_data S c written drained m in
        (after.run_event_count ≡ (waited written m).run_event_count)
        × (after.pending_buffers ≡ [])
        × ((start_run S c run sender use_routing_manager after).active_buffers
            ≡ (waited written m).active_buffers)
  unfolding end_of_data start_run
  end_of_data-keeps_open c written drained run sender use_routing_manager m h p q =
      let before = waited written m in
      let kept = flush-Kept c (length before.active_buffers) before h p q in
      (kept.3, kept.2 ∙ p, kept.0)
