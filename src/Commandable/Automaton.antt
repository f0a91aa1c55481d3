-- ===== src/Commandable/Automaton.antt =====
-- The run states as a plain automaton, without stack, context or calls of calls: what a command does
-- in a state, by what the virtual function answers.
use artdaq.Prelude.{Bool, true, false, Option, none, some, List, [], ◌∷◌}
use artdaq.Commandable.{
  State, Command, Failure, Process, Handlers, booted, initialized, ready, in_run, running, paused,
  in_run_error, init, start, stop, pause, resume, shutdown, soft_init, reinit, in_run_failure,
  state_undefined, transition_undefined, from_handler,
}

-- What a stack below a state holds.
abbrev pub stack_of : State → List State
stack_of booted = []
stack_of initialized = []
stack_of ready = initialized ∷ []
stack_of in_run = initialized ∷ []
stack_of running = in_run ∷ initialized ∷ []
stack_of paused = in_run ∷ initialized ∷ []
stack_of in_run_error = in_run ∷ initialized ∷ []

-- The commands that a state has a transition for.
abbrev pub is_accepted : State → Command → Bool
is_accepted booted init = true
is_accepted booted reinit = true
is_accepted booted shutdown = true
is_accepted initialized init = true
is_accepted initialized reinit = true
is_accepted initialized shutdown = true
is_accepted ready init = true
is_accepted ready reinit = true
is_accepted ready soft_init = true
is_accepted ready start = true
is_accepted ready shutdown = true
is_accepted in_run stop = true
is_accepted running pause = true
is_accepted running stop = true
is_accepted running in_run_failure = true
is_accepted paused resume = true
is_accepted paused stop = true
is_accepted in_run_error pause = true
is_accepted in_run_error stop = true
is_accepted s t = false

-- The exception of a command that a state has no transition for.
abbrev pub refusal : Command → Failure
refusal in_run_failure = transition_undefined
refusal t = state_undefined

-- The state, the process and the exception after a command.
abbrev pub Result : Type 0 → Type 0
Result Owner = State × Process Owner × Option Failure

abbrev pub stay : {Owner : Type 0} → State → Process Owner → Result Owner
stay s p = (s, p, none)

abbrev pub reject : {Owner : Type 0} → State → Process Owner → Result Owner
reject s p = (s, p, some state_undefined)

abbrev pub by_answer :
    {Owner : Type 0}
    → (Process Owner → Result Owner)
    → (Process Owner → Result Owner)
    → State
    → Process Owner × Option Bool
    → Result Owner
by_answer done failed s (p, none) = (s, p, some from_handler)
by_answer done failed s (p, some true) = done p
by_answer done failed s (p, some false) = failed p

module _ {Owner Args : Type 0} (H : Handlers Owner Args) where
  abbrev pub boot : Process Owner → Result Owner
  boot p = (booted, H.booted_enter p, none)

  abbrev pub end_run : Process Owner → Result Owner
  end_run p = (ready, H.in_run_exit p, none)

  abbrev pub next : Args → State → Command → Process Owner → Result Owner
  next a booted init p = by_answer (stay ready) (stay booted) booted (H.do_initialize a p)
  next a booted reinit p = by_answer (stay ready) (stay booted) booted (H.do_initialize a p)
  next a booted shutdown p = boot p
  next a initialized init p = by_answer (stay ready) boot initialized (H.do_initialize a p)
  next a initialized reinit p = by_answer (stay ready) boot initialized (H.do_initialize a p)
  next a initialized shutdown p =
      by_answer boot (reject initialized) initialized (H.do_shutdown a p)
  next a ready init p = by_answer (stay ready) boot initialized (H.do_initialize a p)
  next a ready shutdown p = by_answer boot (reject initialized) initialized (H.do_shutdown a p)
  next a ready reinit p = by_answer (stay ready) (stay ready) ready (H.do_reinitialize a p)
  next a ready soft_init p = by_answer (stay ready) (stay ready) ready (H.do_soft_initialize a p)
  next a ready start p = by_answer (stay running) (stay ready) ready (H.do_start a p)
  next a in_run stop p = by_answer end_run (reject in_run) in_run (H.do_stop a p)
  next a running stop p = by_answer end_run (reject in_run) in_run (H.do_stop a p)
  next a paused stop p = by_answer end_run (reject in_run) in_run (H.do_stop a p)
  next a in_run_error stop p = by_answer end_run (reject in_run) in_run (H.do_stop a p)
  next a running pause p = by_answer (stay paused) (stay running) running (H.do_pause a p)
  next a in_run_error pause p =
      by_answer (stay paused) (stay in_run_error) in_run_error (H.do_pause a p)
  next a paused resume p = by_answer (stay running) (stay paused) paused (H.do_resume a p)
  next a running in_run_failure p = (in_run_error, p, none)
  next a s in_run_failure p = (s, p, some transition_undefined)
  next a s t p = reject s p
