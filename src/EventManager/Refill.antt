-- ===== src/EventManager/Refill.antt =====
-- `check_pending_buffers_`: the tokens that go out for free buffers.
use artdaq.Prelude.Ord.{nat_ord}
use artdaq.Prelude.{ℕ, ◌+◌, ◌-◌, ◌*◌, ◌^◌, ◌≤◌, ◌<◌, ◌≡◌, refl, ap, ◌∙◌, some, [], arith}
use artdaq.Prelude.Words.{to_int, to_u64}
use artdaq.EventManager.{Tokens, EventManager, SharedMemory, Config}
use artdaq.EventManager.Buffers.{
  sort_by, top_up, time_out_all, release_all, release_order, send_tokens, check_pending_buffers,
}

top_up_again :
    (available released : ℕ) (t : Tokens)
    → t.in_flight ≡ 0
    → released ≤ t.tokens_sent
    → t.tokens_sent < 2 ^ 64
    → t.tokens_sent < released + available
    → (top_up available released (top_up available released t)).in_flight
      ≡ 2 * (released + available - t.tokens_sent)
unfolding top_up
top_up_again available released t e h l m = ground arith

top_up-sent :
    (available released : ℕ) (t : Tokens)
    → (top_up available released t).tokens_sent ≡ t.tokens_sent
unfolding top_up
top_up-sent available released t = ground arith

tokens-eta :
    (t : Tokens) (sent in_flight : ℕ)
    → t.tokens_sent ≡ sent
    → t.in_flight ≡ in_flight
    → t ≡ record { tokens_sent = sent; in_flight = in_flight }
tokens-eta t sent in_flight h k = cc

top_up_twice :
    (available released : ℕ) (t : Tokens)
    → t.in_flight ≡ 0
    → released ≤ t.tokens_sent
    → t.tokens_sent < 2 ^ 64
    → t.tokens_sent < released + available
    → top_up available released (top_up available released t) ≡ record {
      tokens_sent = t.tokens_sent;
      in_flight = 2 * (released + available - t.tokens_sent);
    }
top_up_twice available released t e h l m =
    tokens-eta (top_up available released (top_up available released t)) _ _
      (top_up-sent available released (top_up available released t)
        ∙ top_up-sent available released t)
      (top_up_again available released t e h l m)

module _ (S : SharedMemory) where
  check_idle :
      (c : Config) (m : EventManager S.Memory)
      → S.owned m.memory ≡ []
      → m.pending_buffers ≡ []
      → check_pending_buffers S c m ≡ send_tokens S c m
  unfolding check_pending_buffers time_out_all release_all release_order sort_by
  check_idle c m o p = rw o (rw p refl)

  count_fits : (n : ℕ) → n < 2 ^ 31 → to_u64 (to_int n) ≡ n
  count_fits n h = ground arith

  -- With no buffer owned and no event pending, no token in flight at first, fewer tokens out than there
  -- are buffers to write in, at least as many tokens sent as events released, and counts that fit their
  -- integers: two checks before the sending threads are done send twice as many tokens as are missing.
  pub check_again :
      (c : Config) (m : EventManager S.Memory) (t : Tokens)
      → S.owned m.memory ≡ []
      → m.pending_buffers ≡ []
      → m.tokens ≡ some t
      → t.in_flight ≡ 0
      → m.run_event_count < 2 ^ 31
      → m.run_event_count ≤ t.tokens_sent
      → t.tokens_sent < 2 ^ 64
      → t.tokens_sent < m.run_event_count + S.write_ready_count m.memory c.overwrite_mode
      → (check_pending_buffers S c (check_pending_buffers S c m)).tokens
        ≡ some (record {
          tokens_sent = t.tokens_sent;
          in_flight =
              2
              * (m.run_event_count + S.write_ready_count m.memory c.overwrite_mode - t.tokens_sent);
        })
  unfolding send_tokens
  check_again c m t o p k e small h l missing =
      let available = S.write_ready_count m.memory c.overwrite_mode in
      let twice = top_up_twice available m.run_event_count t e h l missing in
      rw (check_idle c m o p) (
        rw (check_idle c (send_tokens S c m) o p)
          (unfold send_tokens in rw k (rw (count_fits m.run_event_count small) (ap some twice))))
