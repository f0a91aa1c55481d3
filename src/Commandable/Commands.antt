-- ===== src/Commandable/Commands.antt =====
-- Commandable.cc: the commands from outside, what a process tells of itself, and the virtual functions
-- of `Commandable` itself.
use artdaq.Prelude.{Bool, true, false, Option, none, some, List, [], ◌∷◌}
use artdaq.Commandable.{
  State, Command, Failure, Report, StateMap, Process, Handlers, Machine, ready, running, paused,
  in_run_error, init, start, stop, pause, resume, shutdown, soft_init, reinit, in_run_failure,
  state_undefined, all_is_ok, error_while_running,
}
use artdaq.Commandable.Transitions.{context_call}

-- The end of a command: its answer, or the exception that leaves it.
pub data Outcome : Type 0 where
  answer : Bool → Outcome
  threw : Failure → Outcome

-- The state's name at the end of a command that was successful.
unfoldable pub concluded : Bool → Option State → Outcome
concluded false current = answer false
concluded true none = threw state_undefined
concluded true (some s) = answer true

-- `status()`: the name of the state, but "Error" for InRunError.
pub data Status : Type 0 where
  error : Status
  name : State → Status

unfoldable pub status_of : State → Status
status_of in_run_error = error
status_of s = name s

unfoldable pub legal_in : State → List Command
legal_in ready = init ∷ soft_init ∷ start ∷ shutdown ∷ []
legal_in running = pause ∷ stop ∷ []
legal_in paused = resume ∷ stop ∷ []
legal_in in_run_error = pause ∷ stop ∷ []
legal_in s = init ∷ shutdown ∷ []

-- What is read off the current state; `none` where there is none and its name throws.
unfoldable pub of_state : {A : Type 0} → (State → A) → Option State → Option A
of_state f none = none
of_state f (some s) = some (f s)

-- The virtual functions as `Commandable` has them.
unfoldable pub always_ok :
    {Owner Args : Type 0} → Args → Process Owner → Process Owner × Option Bool
always_ok a p = (record p { external_request_status = true }, some true)

abbrev pub commandable_handlers : {Owner Args : Type 0} → Handlers Owner Args
commandable_handlers = record {
  do_initialize = always_ok;
  do_start = always_ok;
  do_stop = always_ok;
  do_pause = always_ok;
  do_resume = always_ok;
  do_shutdown = always_ok;
  do_soft_initialize = always_ok;
  do_reinitialize = always_ok;
  booted_enter = λ p. p;
  in_run_exit = λ p. p;
}

module _ (S : StateMap) {Owner Args : Type 0} (H : Handlers Owner Args) where
  unfoldable pub finish : Machine S Owner × Option Failure → Machine S Owner × Outcome
  finish (m, some e) = (m, threw e)
  finish (m, none) = (m, concluded m.process.external_request_status (S.current m.context))

  -- The start of a command, which also reads the state's name.
  unfoldable pub begun : Report → Process Owner → Process Owner
  begun report p = record p { external_request_status = true; report_string = report }

  unfoldable pub performed :
      Command → Args → Option State → Machine S Owner → Machine S Owner × Outcome
  performed t a none m = (m, threw state_undefined)
  performed t a (some s) m = finish (context_call S H a t m)

  unfoldable pub perform : Report → Command → Args → Machine S Owner → Machine S Owner × Outcome
  perform report t a m =
      performed t a (S.current m.context) (record m { process = begun report m.process })

  unfoldable pub initialize : Args → Machine S Owner → Machine S Owner × Outcome
  initialize a m = perform all_is_ok init a m

  unfoldable pub start_run : Args → Machine S Owner → Machine S Owner × Outcome
  start_run a m = perform all_is_ok start a m

  unfoldable pub stop_run : Args → Machine S Owner → Machine S Owner × Outcome
  stop_run a m = perform all_is_ok stop a m

  unfoldable pub pause_run : Args → Machine S Owner → Machine S Owner × Outcome
  pause_run a m = perform all_is_ok pause a m

  unfoldable pub resume_run : Args → Machine S Owner → Machine S Owner × Outcome
  resume_run a m = perform all_is_ok resume a m

  unfoldable pub shut_down : Args → Machine S Owner → Machine S Owner × Outcome
  shut_down a m = perform all_is_ok shutdown a m

  unfoldable pub soft_initialize : Args → Machine S Owner → Machine S Owner × Outcome
  soft_initialize a m = perform all_is_ok soft_init a m

  unfoldable pub reinitialize : Args → Machine S Owner → Machine S Owner × Outcome
  reinitialize a m = perform all_is_ok reinit a m

  unfoldable pub fail_in_run : Args → Machine S Owner → Machine S Owner × Outcome
  fail_in_run a m = perform error_while_running in_run_failure a m

  -- The method of a command.
  unfoldable pub execute : Command → Args → Machine S Owner → Machine S Owner × Outcome
  execute init = initialize
  execute start = start_run
  execute stop = stop_run
  execute pause = pause_run
  execute resume = resume_run
  execute shutdown = shut_down
  execute soft_init = soft_initialize
  execute reinit = reinitialize
  execute in_run_failure = fail_in_run

  unfoldable pub status : Machine S Owner → Option Status
  status m = of_state status_of (S.current m.context)

  unfoldable pub legal_commands : Machine S Owner → Option (List Command)
  legal_commands m = of_state legal_in (S.current m.context)
