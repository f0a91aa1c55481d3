-- ===== src/EventManager/Written.antt =====
-- Valid states through `WriteFragmentHeader` and `DoneWritingFragment`.
use artdaq.Prelude.{
  ◌==◌, if-lem, ℕ, ◌*◌, ◌≡◌, refl, ◌∙◌, Bool, true, false, not, Option, none, some, List,
}
use artdaq.Prelude.Words.{sub64, u64}
use artdaq.Prelude.Int.{ltb_ℤ, pos}
use artdaq.EventManager.{mem, SharedMemory, FragmentHeader, Config, EventManager}
use artdaq.EventManager.Open.{touch_header, Found, found, unavailable, already_released}
use artdaq.EventManager.Opened.{Got, get_buffer-Got, edited-IsValid}
use artdaq.EventManager.Owned.{is_tracked, memory-IsValid, complete_buffer-Keeps, IsValid}
use artdaq.EventManager.Write.{
  begin_write, write_oversize, write_in_buffer, drop_fragment, write_found, write_fragment_header,
  finish_write, finish_updated, finish_found, forget, finish_dropped, done_in,
  done_writing_fragment, Finished, returned, detached, Written,
}

module _ (S : SharedMemory) (invalid_type : ℕ) (same : FragmentHeader → FragmentHeader → Bool) where
  write_oversize-IsValid :
      (c : Config) (m : EventManager S.Memory) (b : ℕ) (f : FragmentHeader)
      → IsValid S m
      → IsValid S (write_oversize S invalid_type same c m b f).0
  unfolding write_oversize begin_write
  write_oversize-IsValid c m b f v =
      let edited = edited-IsValid S m m.memory b _ (λ x. refl) refl v in
      record { tracked = edited.tracked; apart = edited.apart; distinct = edited.distinct }

  begun-IsValid :
      (c : Config) (m : EventManager S.Memory) (s : S.Memory) (b : ℕ) (f : FragmentHeader)
      → ((x : ℕ) → mem x (S.owned s) ≡ mem x (S.owned m.memory))
      → IsValid S m
      → IsValid S (record (begin_write S invalid_type same c m b f f) { memory = s })
  unfolding begin_write
  begun-IsValid c m s b f h v =
      let edited = edited-IsValid S m s b _ h refl v in
      record { tracked = edited.tracked; apart = edited.apart; distinct = edited.distinct }

  write_in_buffer-IsValid :
      (c : Config) (m : EventManager S.Memory) (b : ℕ) (f : FragmentHeader)
      → IsValid S m
      → IsValid S (write_in_buffer S invalid_type same c m b f).0
  unfolding write_in_buffer
  write_in_buffer-IsValid c m b f v =
      let header = S.increment_write_pos m.memory b (c.header_words * c.word_size) in
      let payload = sub64 f.word_count c.header_words in
      let grown = S.increment_write_pos header.0 b (u64 (payload * c.word_size)) in
      let header_owned = λ (x : ℕ). S.increment-owned m.memory b (c.header_words * c.word_size) x in
      let grown_owned =
        λ (x : ℕ). S.increment-owned header.0 b (u64 (payload * c.word_size)) x ∙ header_owned x in
      let after = memory-IsValid S m header.0 header_owned v in
      if-lem (λ (r : EventManager S.Memory × Written). IsValid S r.0) (not header.1) _ _
        (record { tracked = after.tracked; apart = after.apart; distinct = after.distinct })
        (if-lem (λ (r : EventManager S.Memory × Written). IsValid S r.0) (payload == 0) _ _
          (begun-IsValid c m header.0 b f header_owned v)
          (if-lem (λ (r : EventManager S.Memory × Written). IsValid S r.0) grown.1 _ _
            (begun-IsValid c m grown.0 b f grown_owned v)
            (write_oversize-IsValid c (record m { memory = grown.0 }) b f
              (memory-IsValid S m grown.0 grown_owned v))))

  drop_fragment-IsValid :
      (m : EventManager S.Memory) (f : FragmentHeader)
      → IsValid S m
      → IsValid S (drop_fragment S invalid_type same m f).0
  unfolding drop_fragment
  drop_fragment-IsValid m f v = record {
    tracked = v.tracked;
    apart = v.apart;
    distinct = v.distinct;
  }

  write_found-IsValid :
      (c : Config) (f : FragmentHeader) (drop_if_none : Bool) (r : EventManager S.Memory × Found)
      → Got S f.sequence_id r
      → IsValid S (write_found S invalid_type same c f drop_if_none r).0
  unfolding write_found
  write_found-IsValid c f drop_if_none (m, found b) g = write_in_buffer-IsValid c m b f g.0
  write_found-IsValid c f drop_if_none (m, unavailable) g =
      if-lem (λ (r : EventManager S.Memory × Written). IsValid S r.0) drop_if_none _ _
        (drop_fragment-IsValid m f g) g
  write_found-IsValid c f drop_if_none (m, already_released) g = drop_fragment-IsValid m f g

  pub write_fragment_header-IsValid :
      (c : Config) (now : ℕ) (m : EventManager S.Memory) (f : FragmentHeader) (drop_if_none : Bool)
      → IsValid S m
      → IsValid S (write_fragment_header S invalid_type same c now m f drop_if_none).0
  unfolding write_fragment_header
  write_fragment_header-IsValid c now m f drop_if_none v =
      if-lem (λ (r : EventManager S.Memory × Written). IsValid S r.0) (not m.running) _ _ v
        (write_found-IsValid c f drop_if_none _
          (get_buffer-Got S c now m true f.sequence_id f.timestamp v))

  finish_write-IsValid :
      (c : Config) (now : ℕ) (m : EventManager S.Memory) (b : ℕ) (f : FragmentHeader)
      → is_tracked S m b ≡ true
      → IsValid S m
      → IsValid S (finish_write S invalid_type same c now m b f)
  unfolding finish_write touch_header
  finish_write-IsValid c now m b f h v =
      let touched = S.touch_buffer m.memory b in
      let early = edited-IsValid S m touched b _ (λ x. S.touch-owned m.memory b x) refl v in
      let late =
        (complete_buffer-Keeps S c _ b h
          (edited-IsValid S m touched b _ (λ x. S.touch-owned m.memory b x) refl v)).0 in
      if-lem (IsValid S) (ltb_ℤ (pos 1) (m.buffer_writes_pending b)) _ _
        (record { tracked = early.tracked; apart = early.apart; distinct = early.distinct })
        (record { tracked = late.tracked; apart = late.apart; distinct = late.distinct })

  finish_updated-IsValid :
      (c : Config) (now : ℕ) (m : EventManager S.Memory) (b : ℕ) (f : FragmentHeader)
      (fragments : Option (List FragmentHeader))
      → is_tracked S m b ≡ true
      → IsValid S m
      → IsValid S (finish_updated S invalid_type same c now m b f fragments).0
  unfolding finish_updated
  finish_updated-IsValid c now m b f none h v = v
  finish_updated-IsValid c now m b f (some fragments) h v =
      finish_write-IsValid c now _ b f h (edited-IsValid S m m.memory b _ (λ x. refl) refl v)

  forget-IsValid :
      (m : EventManager S.Memory) (otherwise : Finished) (kept : Option (List FragmentHeader))
      → IsValid S m
      → IsValid S (forget S invalid_type same m otherwise kept).0
  unfolding forget
  forget-IsValid m otherwise none v = v
  forget-IsValid m otherwise (some kept) v = record {
    tracked = v.tracked;
    apart = v.apart;
    distinct = v.distinct;
  }

  done_in-IsValid :
      (c : Config) (now : ℕ) (f : FragmentHeader) (r : EventManager S.Memory × Found)
      → Got S f.sequence_id r
      → IsValid S (done_in S invalid_type same c now f r).0
  unfolding done_in finish_found finish_dropped
  done_in-IsValid c now f (m, found b) g =
      if-lem (λ (r : EventManager S.Memory × Finished). IsValid S r.0) f.is_header_valid _ _
        (finish_write-IsValid c now m b f g.1 g.0) (finish_updated-IsValid c now m b f _ g.1 g.0)
  done_in-IsValid c now f (m, unavailable) g = forget-IsValid m detached _ g
  done_in-IsValid c now f (m, already_released) g = forget-IsValid m returned _ g

  pub done_writing_fragment-IsValid :
      (c : Config) (now : ℕ) (m : EventManager S.Memory) (f : FragmentHeader)
      → IsValid S m
      → IsValid S (done_writing_fragment S invalid_type same c now m f).0
  unfolding done_writing_fragment
  done_writing_fragment-IsValid c now m f v =
      done_in-IsValid c now f _ (get_buffer-Got S c now m false f.sequence_id f.timestamp v)
