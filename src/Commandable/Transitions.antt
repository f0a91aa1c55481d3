-- ===== src/Commandable/Transitions.antt =====
-- Commandable_sm.cpp: the state classes. A method of a state class is a step of the machine that ends
-- normally or with an exception.
use artdaq.Prelude.{ℕ, zero, suc, Bool, true, false, Option, none, some}
use artdaq.Commandable.{
  State, Command, Failure, StateMap, Process, Handlers, Machine, booted, initialized, ready, in_run,
  running, paused, in_run_error, init, start, stop, pause, resume, shutdown, soft_init, reinit,
  in_run_failure, state_undefined, transition_undefined, pop_on_empty, from_handler, too_deep,
  invalid_transition,
}
use artdaq.Commandable.Automaton.{next}

module _ (S : StateMap) {Owner Args : Type 0} (H : Handlers Owner Args) where
  abbrev pub Step : Type 0
  Step = Machine S Owner → Machine S Owner × Option Failure

  unfoldable pub skip : Step
  skip m = (m, none)

  unfoldable pub after : Step → Machine S Owner × Option Failure → Machine S Owner × Option Failure
  after next (m, none) = next m
  after next (m, some e) = (m, some e)

  unfoldable pub and_then : Step → Step → Step
  and_then first next m = after next (first m)

  -- `Entry` and `Exit`: `Main_Booted` and `InitializedMap_InRun` have one.
  unfoldable pub entry : State → Process Owner → Process Owner
  entry booted p = H.booted_enter p
  entry initialized p = p
  entry ready p = p
  entry in_run p = p
  entry running p = p
  entry paused p = p
  entry in_run_error p = p

  unfoldable pub exit : State → Process Owner → Process Owner
  exit booted p = p
  exit initialized p = p
  exit ready p = p
  exit in_run p = H.in_run_exit p
  exit running p = p
  exit paused p = p
  exit in_run_error p = p

  -- `context.getState().Entry(context)`, and the same with `Exit`.
  unfoldable pub hooked : (State → Process Owner → Process Owner) → Option State → Step
  hooked hook none m = (m, some state_undefined)
  hooked hook (some s) m = (record m { process = hook s m.process }, none)

  unfoldable pub enter_state : Step
  enter_state m = hooked entry (S.current m.context) m

  unfoldable pub exit_state : Step
  exit_state m = hooked exit (S.current m.context) m

  unfoldable pub change_to : State → Step
  change_to s m = (record m { context = S.set_state m.context s }, none)

  unfoldable pub push : State → Step
  push s m = (record m { context = S.push_state m.context s }, none)

  unfoldable pub popped : Option S.Context → Step
  popped none m = (m, some pop_on_empty)
  popped (some c) m = (record m { context = c }, none)

  unfoldable pub pop : Step
  pop m = popped (S.pop_state m.context) m

  unfoldable pub move_to : State → Step
  move_to s = and_then exit_state (and_then (change_to s) enter_state)

  -- Into a state and from there into the map below it.
  unfoldable pub descend : State → State → Step
  descend s t = and_then (move_to s) (and_then (push t) enter_state)

  -- Out of a map, and the command again in the state above it.
  unfoldable pub ascend : Step → Step
  ascend again = and_then exit_state (and_then pop again)

  -- `if (ctxt.do_...(...))`
  unfoldable pub answered : Step → Step → Process Owner × Option Bool → Step
  answered done failed (p, none) m = (record m { process = p }, some from_handler)
  answered done failed (p, some true) m = done (record m { process = p })
  answered done failed (p, some false) m = failed (record m { process = p })

  unfoldable pub invoke : (Process Owner → Process Owner × Option Bool) → Step → Step → Step
  invoke handler done failed m = answered done failed (handler m.process) m

  -- `clearState()`, an action, and the state from before again, also after an exception.
  unfoldable pub restored :
      State → Machine S Owner × Option Failure → Machine S Owner × Option Failure
  restored end_state (m, e) = (record m { context = S.set_state m.context end_state }, e)

  unfoldable pub held : Step → Option State → Step
  held action none m = (m, some state_undefined)
  held action (some s) m = restored s (action (record m { context = S.clear_state m.context }))

  unfoldable pub hold : Step → Step
  hold action m = held action (S.current m.context) m

  -- `Commandable::badTransition`, which asks the context for its state.
  unfoldable pub blamed : Command → Option State → Step
  blamed t none m = (m, some state_undefined)
  blamed t (some s) m = (
    record m {
      process = record m.process {
        external_request_status = false;
        report_string = invalid_transition t s;
      };
    },
    none,
  )

  unfoldable pub bad_transition : Command → Step
  bad_transition t m = blamed t (S.current m.context) m

  -- The methods of a `..._Default` class: `in_run_failure` is that of `CommandableState`.
  unfoldable pub refuse : Command → Step
  refuse in_run_failure m = (m, some transition_undefined)
  refuse t m = hold (bad_transition t) m

  unfoldable pub main_default : Command → Step
  main_default t = refuse t

  unfoldable pub initialized_map_default : Command → Step
  initialized_map_default t = refuse t

  unfoldable pub in_run_map_default : Command → Step
  in_run_map_default t = refuse t

  unfoldable pub booted_call : Args → Command → Step
  booted_call a init = invoke (H.do_initialize a) (descend initialized ready) skip
  booted_call a reinit = invoke (H.do_initialize a) (descend initialized ready) skip
  booted_call a shutdown = move_to booted
  booted_call a t = main_default t

  unfoldable pub initialized_call : Args → Command → Step
  initialized_call a init = invoke (H.do_initialize a) (descend initialized ready) (move_to booted)
  initialized_call a reinit =
      invoke (H.do_initialize a) (descend initialized ready) (move_to booted)
  initialized_call a shutdown = invoke (H.do_shutdown a) (move_to booted) (main_default shutdown)
  initialized_call a t = main_default t

  -- `again` is the same command of the context.
  unfoldable pub ready_call : Step → Args → Command → Step
  ready_call again a init = ascend again
  ready_call again a reinit = hold (invoke (H.do_reinitialize a) skip skip)
  ready_call again a shutdown = ascend again
  ready_call again a soft_init = hold (invoke (H.do_soft_initialize a) skip skip)
  ready_call again a start = invoke (H.do_start a) (descend in_run running) skip
  ready_call again a t = initialized_map_default t

  unfoldable pub in_run_call : Args → Command → Step
  in_run_call a stop = invoke (H.do_stop a) (move_to ready) (initialized_map_default stop)
  in_run_call a t = initialized_map_default t

  unfoldable pub running_call : Step → Args → Command → Step
  running_call again a in_run_failure = move_to in_run_error
  running_call again a pause = invoke (H.do_pause a) (move_to paused) skip
  running_call again a stop = ascend again
  running_call again a t = in_run_map_default t

  unfoldable pub paused_call : Step → Args → Command → Step
  paused_call again a resume = invoke (H.do_resume a) (move_to running) skip
  paused_call again a stop = ascend again
  paused_call again a t = in_run_map_default t

  unfoldable pub in_run_error_call : Step → Args → Command → Step
  in_run_error_call again a pause = invoke (H.do_pause a) (move_to paused) skip
  in_run_error_call again a stop = ascend again
  in_run_error_call again a t = in_run_map_default t

  -- The virtual call `getState().t(*this, ...)`.
  unfoldable pub dispatch : Step → Args → Command → Option State → Step
  dispatch again a t none m = (m, some state_undefined)
  dispatch again a t (some booted) m = booted_call a t m
  dispatch again a t (some initialized) m = initialized_call a t m
  dispatch again a t (some ready) m = ready_call again a t m
  dispatch again a t (some in_run) m = in_run_call a t m
  dispatch again a t (some running) m = running_call again a t m
  dispatch again a t (some paused) m = paused_call again a t m
  dispatch again a t (some in_run_error) m = in_run_error_call again a t m

  unfoldable pub call : ℕ → Args → Command → Step
  call zero a t m = (m, some too_deep)
  call (suc depth) a t m = dispatch (call depth a t) a t (S.current m.context) m

  -- A command of `CommandableContext`. The maps are three deep.
  unfoldable pub context_call : Args → Command → Step
  context_call a t m = call 3 a t m
