-- ===== src/Commandable/Executes.antt =====
-- The commands from outside as the automaton has them.
use artdaq.Prelude.{ℕ, suc, ◌≡◌, refl, ap, ◌∙◌, Bool, true, false, Option, none, some}
use artdaq.Commandable.{
  State, Command, Failure, Report, StateMap, Handlers, Machine, booted, initialized, ready, in_run,
  running, paused, in_run_error, init, start, stop, pause, resume, shutdown, soft_init, reinit,
  in_run_failure, all_is_ok, error_while_running,
}
use artdaq.Commandable.Automaton.{Result, next}
use artdaq.Commandable.Commands.{
  concluded, finish, begun, performed, perform, initialize, start_run, stop_run, pause_run,
  resume_run, shut_down, soft_initialize, reinitialize, fail_in_run, execute, Outcome, answer,
  threw,
}
use artdaq.Commandable.Refines.{IsIn, EndsAs}
use artdaq.Commandable.Refines.Classes.{
  booted-EndsAs, initialized-EndsAs, ready-EndsAs, in_run-EndsAs, running-EndsAs, paused-EndsAs,
  in_run_error-EndsAs,
}
use artdaq.Commandable.Transitions.{dispatch, call, context_call}

-- The text that a command begins with.
unfoldable pub first_report : Command → Report
first_report in_run_failure = error_while_running
first_report t = all_is_ok

-- How a command ends, after a result of the automaton.
abbrev pub outcome_of : {Owner : Type 0} → Result Owner → Outcome
outcome_of (s, p, none) = answer p.external_request_status
outcome_of (s, p, some e) = threw e

module _ (S : StateMap) {Owner Args : Type 0} (H : Handlers Owner Args) where
  dispatch-EndsAs :
      (depth : ℕ) (a : Args) (t : Command) (s : State) (m : Machine S Owner)
      → IsIn S H s m
      → EndsAs S H (next H a s t m.process) (dispatch S H (call S H (suc depth) a t) a t (some s) m)
  unfolding dispatch call
  dispatch-EndsAs depth a t booted m i = booted-EndsAs S H a t m i
  dispatch-EndsAs depth a t initialized m i = initialized-EndsAs S H a t m i
  dispatch-EndsAs depth a t in_run m i = in_run-EndsAs S H a t m i
  dispatch-EndsAs depth a t ready m i =
      ready-EndsAs S H _ a t m (λ n k. rw k.0 (initialized-EndsAs S H a t n k)) i
  dispatch-EndsAs depth a t running m i =
      running-EndsAs S H _ a t m (λ n k. rw k.0 (in_run-EndsAs S H a t n k)) i
  dispatch-EndsAs depth a t paused m i =
      paused-EndsAs S H _ a t m (λ n k. rw k.0 (in_run-EndsAs S H a t n k)) i
  dispatch-EndsAs depth a t in_run_error m i =
      in_run_error-EndsAs S H _ a t m (λ n k. rw k.0 (in_run-EndsAs S H a t n k)) i

  context_call-EndsAs :
      (a : Args) (t : Command) (s : State) (m : Machine S Owner)
      → IsIn S H s m
      → EndsAs S H (next H a s t m.process) (context_call S H a t m)
  unfolding context_call call
  context_call-EndsAs a t s m i = rw i.0 (dispatch-EndsAs 1 a t s m i)

  concluded_answer : (b : Bool) (s : State) → concluded b (some s) ≡ answer b
  unfolding concluded
  concluded_answer true s = refl
  concluded_answer false s = refl

  -- What a command from outside has come to, by a result of the automaton.
  abbrev pub Comes : Result Owner → Machine S Owner × Outcome → Type 0
  Comes r (m, o) = IsIn S H r.0 m × (m.process ≡ r.1) × (o ≡ outcome_of r)

  finish-Comes :
      (r : Result Owner) (done : Machine S Owner × Option Failure)
      → EndsAs S H r done
      → Comes r (finish S H done)
  unfolding finish
  finish-Comes (s, p, none) (m, none) d = (
    d.0,
    d.1,
    ap (λ c. concluded m.process.external_request_status c) d.0.0
        ∙ concluded_answer m.process.external_request_status s
        ∙ ap (λ q. answer q.external_request_status) d.1,
  )
  finish-Comes (s, p, some e) (m, some f) d = (d.0, d.1, cc)
  finish-Comes (s, p, none) (m, some f) d = cc
  finish-Comes (s, p, some e) (m, none) d = cc

  perform-Comes :
      (report : Report) (a : Args) (t : Command) (s : State) (m : Machine S Owner)
      → IsIn S H s m
      → Comes (next H a s t (begun S H report m.process)) (perform S H report t a m)
  unfolding perform performed
  perform-Comes report a t s m i = rw i.0 (
      finish-Comes _ _
        (context_call-EndsAs a t s (record m { process = begun S H report m.process }) i))

  -- In a state, with the stack that belongs to it, every command ends as the plain automaton says: in
  -- its state with the stack of that state, after the same virtual functions in the same order, and
  -- with the automaton's exception or else the status as its answer. This holds for every behaviour of
  -- the virtual functions, failures and exceptions included.
  pub execute-Comes :
      (a : Args) (t : Command) (s : State) (m : Machine S Owner)
      → IsIn S H s m
      → Comes (next H a s t (begun S H (first_report t) m.process)) (execute S H t a m)
  unfolding execute first_report initialize start_run stop_run pause_run resume_run shut_down
      soft_initialize reinitialize fail_in_run
  execute-Comes a init s m i = perform-Comes all_is_ok a init s m i
  execute-Comes a start s m i = perform-Comes all_is_ok a start s m i
  execute-Comes a stop s m i = perform-Comes all_is_ok a stop s m i
  execute-Comes a pause s m i = perform-Comes all_is_ok a pause s m i
  execute-Comes a resume s m i = perform-Comes all_is_ok a resume s m i
  execute-Comes a shutdown s m i = perform-Comes all_is_ok a shutdown s m i
  execute-Comes a soft_init s m i = perform-Comes all_is_ok a soft_init s m i
  execute-Comes a reinit s m i = perform-Comes all_is_ok a reinit s m i
  execute-Comes a in_run_failure s m i = perform-Comes error_while_running a in_run_failure s m i
