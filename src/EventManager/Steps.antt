-- ===== src/EventManager/Steps.antt =====
-- Everything that happens to the event manager between two ends of data, in any order.
use artdaq.Prelude.{if-lem, ℕ, ◌≡◌, refl, Bool, Option}
use artdaq.Map.{contains}
use artdaq.EventManager.{mem, SharedMemory, FragmentHeader, Config, EventManager}
use artdaq.EventManager.Buffers.{check_pending_buffers, token_done}
use artdaq.EventManager.Open.{add_fragment}
use artdaq.EventManager.Opened.{add_fragment-IsValid}
use artdaq.EventManager.Owned.{memory-IsValid, check_pending-Keeps, IsValid}
use artdaq.EventManager.Run.{add_init_fragment, start_run, end_run, Broadcast}
use artdaq.EventManager.Subruns.{rollover_subrun}
use artdaq.EventManager.Write.{write_fragment_header, done_writing_fragment}
use artdaq.EventManager.Written.{write_fragment_header-IsValid, done_writing_fragment-IsValid}
use artdaq.RequestSender.{RequestSender}
use artdaq.Prelude.Ord.{nat_ord}

module _ (S : SharedMemory) (invalid_type : ℕ) (same : FragmentHeader → FragmentHeader → Bool) where
  -- A call of one of the methods by some thread, a sending thread that is done, or a reader that works
  -- on buffers which the manager does not own.
  pub data Step (c : Config) (m : EventManager S.Memory) : EventManager S.Memory → Type 0 where
    adds : (now : ℕ) (f : FragmentHeader) → Step c m (add_fragment S c now m f).0
    writes :
        (now : ℕ) (f : FragmentHeader) (drop_if_none : Bool)
        → Step c m (write_fragment_header S invalid_type same c now m f drop_if_none).0
    finishes :
        (now : ℕ) (f : FragmentHeader)
        → Step c m (done_writing_fragment S invalid_type same c now m f).0
    checks : Step c m (check_pending_buffers S c m)
    sends : (n : ℕ) → Step c m (token_done S n m)
    rolls :
        (invalid boundary subrun : ℕ)
        → Step c m (record m {
          subrun_event_map =
              rollover_subrun invalid c.max_subrun_event_map_length m.subrun_event_map boundary
                subrun;
        })
    inits :
        (empty_init : FragmentHeader) (has_buffer : Bool) (f : FragmentHeader)
        → Step c m (add_init_fragment S c empty_init has_buffer m f).0
    starts :
        (run : ℕ) (sender : RequestSender) (use_routing_manager : Bool)
        → Step c m (start_run S c run sender use_routing_manager m)
    ends : Step c m (end_run S m)
    reads :
        (s : S.Memory)
        → ((x : ℕ) → mem x (S.owned s) ≡ mem x (S.owned m.memory))
        → Step c m (record m { memory = s })

  pub data Runs (c : Config) (m : EventManager S.Memory) : EventManager S.Memory → Type 0 where
    here : Runs c m m
    followed : {n l : EventManager S.Memory} → Runs c m n → Step c n l → Runs c m l

  -- The members that a valid state is about are the same.
  untouched-IsValid :
      (m n : EventManager S.Memory)
      → n.memory ≡ m.memory
      → n.active_buffers ≡ m.active_buffers
      → n.pending_buffers ≡ m.pending_buffers
      → n.events ≡ m.events
      → IsValid S m
      → IsValid S n
  untouched-IsValid m n memory active pending events v = record {
    tracked = λ x. rw (memory, active, pending) (v.tracked x);
    apart = λ x. rw (active, pending) (v.apart x);
    distinct = λ x y. rw (active, pending, events) (v.distinct x y);
  }

  Step-IsValid : {c : Config} {m n : EventManager S.Memory} → Step c m n → IsValid S m → IsValid S n
  unfolding token_done start_run end_run add_init_fragment
  Step-IsValid {c} {m} (adds now f) v = add_fragment-IsValid S c now m f v
  Step-IsValid {c} {m} (writes now f drop_if_none) v =
      write_fragment_header-IsValid S invalid_type same c now m f drop_if_none v
  Step-IsValid {c} {m} (finishes now f) v =
      done_writing_fragment-IsValid S invalid_type same c now m f v
  Step-IsValid {c} {m} checks v = (check_pending-Keeps S c m v).0
  Step-IsValid {c} {m} (sends n) v = untouched-IsValid m _ refl refl refl refl v
  Step-IsValid {c} {m} (rolls invalid boundary subrun) v =
      untouched-IsValid m _ refl refl refl refl v
  Step-IsValid {c} {m} (inits empty_init has_buffer f) v =
      if-lem (λ (r : EventManager S.Memory × Option Broadcast). IsValid S r.0)
        (contains f.fragment_id m.received_init_frags) _ _ v
        (untouched-IsValid m _ refl refl refl refl v)
  Step-IsValid {c} {m} (starts run sender use_routing_manager) v =
      untouched-IsValid m _ refl refl refl refl v
  Step-IsValid {c} {m} ends v = untouched-IsValid m _ refl refl refl refl v
  Step-IsValid {c} {m} (reads s h) v = memory-IsValid S m s h v

  -- Whatever sequence of calls, sending threads and readers a valid state goes through, it stays valid:
  -- the owned buffers are those of the open and the pending events, no event is both, and no two have
  -- the same sequence ID.
  pub Runs-IsValid :
      {c : Config} {m n : EventManager S.Memory} → Runs c m n → IsValid S m → IsValid S n
  Runs-IsValid here v = v
  Runs-IsValid (followed r s) v = Step-IsValid s (Runs-IsValid r v)
