-- ===== src/Commandable/Legal.antt =====
-- The commands that a process names as legal, and those that it refuses.
use mathlib.Core.Path.{subst}
use artdaq.Prelude.{All, ◌≡◌, refl, ap, true, false, some, List, [], ◌∷◌}
use artdaq.Commandable.{
  State, Command, StateMap, Process, Handlers, Machine, booted, initialized, ready, in_run, running,
  paused, in_run_error, init, start, stop, pause, resume, shutdown, soft_init, reinit,
  in_run_failure, state_undefined, all_is_ok,
}
use artdaq.Commandable.Automaton.{is_accepted, refusal, reject, by_answer, end_run, next}
use artdaq.Commandable.Commands.{
  legal_in, always_ok, commandable_handlers, begun, execute, legal_commands, Outcome, answer, threw,
  of_state,
}
use artdaq.Commandable.Executes.{first_report, Comes, execute-Comes}
use artdaq.Commandable.Refines.{IsIn}

-- What each command comes to that `legal_commands` names in a state.
abbrev pub promised : State → Outcome
promised in_run = threw state_undefined
promised s = answer true

module _ (S : StateMap) {Owner Args : Type 0} (H : Handlers Owner Args) where
  next-refused :
      (a : Args) (s : State) (t : Command) (p : Process Owner)
      → is_accepted s t ≡ false
      → next H a s t p ≡ (s, p, some (refusal t))
  next-refused a booted init p h = cc
  next-refused a booted start p h = refl
  next-refused a booted stop p h = refl
  next-refused a booted pause p h = refl
  next-refused a booted resume p h = refl
  next-refused a booted shutdown p h = cc
  next-refused a booted soft_init p h = refl
  next-refused a booted reinit p h = cc
  next-refused a booted in_run_failure p h = refl
  next-refused a initialized init p h = cc
  next-refused a initialized start p h = refl
  next-refused a initialized stop p h = refl
  next-refused a initialized pause p h = refl
  next-refused a initialized resume p h = refl
  next-refused a initialized shutdown p h = cc
  next-refused a initialized soft_init p h = refl
  next-refused a initialized reinit p h = cc
  next-refused a initialized in_run_failure p h = refl
  next-refused a ready init p h = cc
  next-refused a ready start p h = cc
  next-refused a ready stop p h = refl
  next-refused a ready pause p h = refl
  next-refused a ready resume p h = refl
  next-refused a ready shutdown p h = cc
  next-refused a ready soft_init p h = cc
  next-refused a ready reinit p h = cc
  next-refused a ready in_run_failure p h = refl
  next-refused a in_run init p h = refl
  next-refused a in_run start p h = refl
  next-refused a in_run stop p h = cc
  next-refused a in_run pause p h = refl
  next-refused a in_run resume p h = refl
  next-refused a in_run shutdown p h = refl
  next-refused a in_run soft_init p h = refl
  next-refused a in_run reinit p h = refl
  next-refused a in_run in_run_failure p h = refl
  next-refused a running init p h = refl
  next-refused a running start p h = refl
  next-refused a running stop p h = cc
  next-refused a running pause p h = cc
  next-refused a running resume p h = refl
  next-refused a running shutdown p h = refl
  next-refused a running soft_init p h = refl
  next-refused a running reinit p h = refl
  next-refused a running in_run_failure p h = cc
  next-refused a paused init p h = refl
  next-refused a paused start p h = refl
  next-refused a paused stop p h = cc
  next-refused a paused pause p h = refl
  next-refused a paused resume p h = cc
  next-refused a paused shutdown p h = refl
  next-refused a paused soft_init p h = refl
  next-refused a paused reinit p h = refl
  next-refused a paused in_run_failure p h = refl
  next-refused a in_run_error init p h = refl
  next-refused a in_run_error start p h = refl
  next-refused a in_run_error stop p h = cc
  next-refused a in_run_error pause p h = cc
  next-refused a in_run_error resume p h = refl
  next-refused a in_run_error shutdown p h = refl
  next-refused a in_run_error soft_init p h = refl
  next-refused a in_run_error reinit p h = refl
  next-refused a in_run_error in_run_failure p h = refl

  -- A command that the state has no transition for leaves by an exception and changes neither the state
  -- nor the stack; the report stays as the command began it, and the status stays true.
  pub refused-Comes :
      (a : Args) (t : Command) (s : State) (m : Machine S Owner)
      → IsIn S H s m
      → is_accepted s t ≡ false
      → IsIn S H s (execute S H t a m).0
        × ((execute S H t a m).1 ≡ threw (refusal t))
        × ((execute S H t a m).0.process.report_string ≡ first_report t)
        × ((execute S H t a m).0.process.external_request_status ≡ true)
  unfolding begun
  refused-Comes a t s m i h =
      let p = begun S H (first_report t) m.process in
      let comes =
        subst (λ r. Comes S H r (execute S H t a m)) (next-refused a s t p h)
          (execute-Comes S H a t s m i) in
      (
        comes.0,
        comes.2,
        ap (λ (q : Process Owner). q.report_string) comes.1,
        ap (λ (q : Process Owner). q.external_request_status) comes.1,
      )

  legal_commands-in :
      (s : State) (m : Machine S Owner) → IsIn S H s m → legal_commands S H m ≡ some (legal_in s)
  unfolding legal_commands of_state
  legal_commands-in s m i = ap (of_state legal_in) i.0

  next-failed_stop :
      (a : Args) (s : State) (p q : Process Owner)
      → is_accepted s stop ≡ true
      → H.do_stop a p ≡ (q, some false)
      → next H a s stop p ≡ reject in_run q
  next-failed_stop a booted p q h f = cc
  next-failed_stop a initialized p q h f = cc
  next-failed_stop a ready p q h f = cc
  next-failed_stop a in_run p q h f =
      ap (by_answer (end_run {Args = Args} H) (reject in_run) in_run) f
  next-failed_stop a running p q h f =
      ap (by_answer (end_run {Args = Args} H) (reject in_run) in_run) f
  next-failed_stop a paused p q h f =
      ap (by_answer (end_run {Args = Args} H) (reject in_run) in_run) f
  next-failed_stop a in_run_error p q h f =
      ap (by_answer (end_run {Args = Args} H) (reject in_run) in_run) f

  -- A stop whose virtual function fails leaves by an exception, and leaves the process in the state
  -- InRun. There `legal_commands` names init and shutdown, and both are refused.
  pub failed_stop-traps :
      (a : Args) (s : State) (m : Machine S Owner) (q : Process Owner)
      → IsIn S H s m
      → is_accepted s stop ≡ true
      → H.do_stop a (begun S H all_is_ok m.process) ≡ (q, some false)
      → ((execute S H stop a m).1 ≡ threw state_undefined)
        × (legal_commands S H (execute S H stop a m).0 ≡ some (init ∷ shutdown ∷ []))
        × All
            (λ t. (execute S H t a (execute S H stop a m).0).1 ≡ threw state_undefined)
            (init ∷ shutdown ∷ [])
  unfolding first_report legal_in
  failed_stop-traps a s m q i h f =
      let p = begun S H all_is_ok m.process in
      let comes =
        subst (λ r. Comes S H r (execute S H stop a m)) (next-failed_stop a s p q h f)
          (execute-Comes S H a stop s m i) in
      let n = (execute S H stop a m).0 in
      (
        comes.2,
        legal_commands-in in_run n comes.0,
        (
          (refused-Comes a init in_run n comes.0 refl).1,
          ((refused-Comes a shutdown in_run n comes.0 refl).1, tt),
        ),
      )

module _ (S : StateMap) {Owner Args : Type 0} where
  -- With the virtual functions of `Commandable`, every command that `legal_commands` names is
  -- successful, in every state but InRun, where each is refused.
  pub legal-succeeds :
      (a : Args) (s : State) (m : Machine S Owner)
      → IsIn S (commandable_handlers {Args = Args}) s m
      → (cs : List Command) × (legal_commands S (commandable_handlers {Args = Args}) m ≡ some cs)
        × All (λ t. (execute S commandable_handlers t a m).1 ≡ promised s) cs
  unfolding legal_in always_ok begun first_report
  legal-succeeds a booted m i = (
    _,
    legal_commands-in S commandable_handlers booted m i,
    (
      (execute-Comes S commandable_handlers a init booted m i).2,
      ((execute-Comes S commandable_handlers a shutdown booted m i).2, tt),
    ),
  )
  legal-succeeds a initialized m i = (
    _,
    legal_commands-in S commandable_handlers initialized m i,
    (
      (execute-Comes S commandable_handlers a init initialized m i).2,
      ((execute-Comes S commandable_handlers a shutdown initialized m i).2, tt),
    ),
  )
  legal-succeeds a ready m i = (
    _,
    legal_commands-in S commandable_handlers ready m i,
    (
      (execute-Comes S commandable_handlers a init ready m i).2,
      (
        (execute-Comes S commandable_handlers a soft_init ready m i).2,
        (
          (execute-Comes S commandable_handlers a start ready m i).2,
          ((execute-Comes S commandable_handlers a shutdown ready m i).2, tt),
        ),
      ),
    ),
  )
  legal-succeeds a in_run m i = (
    _,
    legal_commands-in S commandable_handlers in_run m i,
    (
      (execute-Comes S commandable_handlers a init in_run m i).2,
      ((execute-Comes S commandable_handlers a shutdown in_run m i).2, tt),
    ),
  )
  legal-succeeds a running m i = (
    _,
    legal_commands-in S commandable_handlers running m i,
    (
      (execute-Comes S commandable_handlers a pause running m i).2,
      ((execute-Comes S commandable_handlers a stop running m i).2, tt),
    ),
  )
  legal-succeeds a paused m i = (
    _,
    legal_commands-in S commandable_handlers paused m i,
    (
      (execute-Comes S commandable_handlers a resume paused m i).2,
      ((execute-Comes S commandable_handlers a stop paused m i).2, tt),
    ),
  )
  legal-succeeds a in_run_error m i = (
    _,
    legal_commands-in S commandable_handlers in_run_error m i,
    (
      (execute-Comes S commandable_handlers a pause in_run_error m i).2,
      ((execute-Comes S commandable_handlers a stop in_run_error m i).2, tt),
    ),
  )
