-- ===== src/Commandable/Refines/Classes.antt =====
-- The methods of the state classes.
use artdaq.Prelude.{refl}
use artdaq.Commandable.{
  Command, StateMap, Handlers, Machine, booted, initialized, ready, in_run, running, paused,
  in_run_error, init, start, stop, pause, resume, shutdown, soft_init, reinit, in_run_failure,
}
use artdaq.Commandable.Automaton.{stay, reject, boot, end_run, next}
use artdaq.Commandable.Refines.{
  IsIn, EndsAs, skip-EndsAs, move_to-EndsAs, descend-EndsAs, ascend-EndsAs, invoke-EndsAs,
  hold-invoke-EndsAs, hold_bad-EndsAs,
}
use artdaq.Commandable.Transitions.{
  Step, entry, exit, refuse, main_default, initialized_map_default, in_run_map_default, booted_call,
  initialized_call, ready_call, in_run_call, running_call, paused_call, in_run_error_call,
}
use mathlib.Core.Path.{subst}

module _ (S : StateMap) {Owner Args : Type 0} (H : Handlers Owner Args) where
  pub booted-EndsAs :
      (a : Args) (t : Command) (m : Machine S Owner)
      → IsIn S H booted m
      → EndsAs S H (next H a booted t m.process) (booted_call S H a t m)
  unfolding booted_call main_default refuse entry exit
  booted-EndsAs a init m i =
      invoke-EndsAs S H booted (H.do_initialize a) _ _ (stay ready) (stay booted) m
        (λ n k. descend-EndsAs S H booted initialized ready n refl refl k)
        (λ n k. skip-EndsAs S H booted n k) i
  booted-EndsAs a start m i = hold_bad-EndsAs S H booted start m i
  booted-EndsAs a stop m i = hold_bad-EndsAs S H booted stop m i
  booted-EndsAs a pause m i = hold_bad-EndsAs S H booted pause m i
  booted-EndsAs a resume m i = hold_bad-EndsAs S H booted resume m i
  booted-EndsAs a shutdown m i = move_to-EndsAs S H booted booted m refl i
  booted-EndsAs a soft_init m i = hold_bad-EndsAs S H booted soft_init m i
  booted-EndsAs a reinit m i =
      invoke-EndsAs S H booted (H.do_initialize a) _ _ (stay ready) (stay booted) m
        (λ n k. descend-EndsAs S H booted initialized ready n refl refl k)
        (λ n k. skip-EndsAs S H booted n k) i
  booted-EndsAs a in_run_failure m i = (i, refl, refl)

  pub initialized-EndsAs :
      (a : Args) (t : Command) (m : Machine S Owner)
      → IsIn S H initialized m
      → EndsAs S H (next H a initialized t m.process) (initialized_call S H a t m)
  unfolding initialized_call main_default refuse entry exit
  initialized-EndsAs a init m i =
      invoke-EndsAs S H initialized (H.do_initialize a) _ _ (stay ready) (boot {Args = Args} H) m
        (λ n k. descend-EndsAs S H initialized initialized ready n refl refl k)
        (λ n k. move_to-EndsAs S H initialized booted n refl k) i
  initialized-EndsAs a start m i = hold_bad-EndsAs S H initialized start m i
  initialized-EndsAs a stop m i = hold_bad-EndsAs S H initialized stop m i
  initialized-EndsAs a pause m i = hold_bad-EndsAs S H initialized pause m i
  initialized-EndsAs a resume m i = hold_bad-EndsAs S H initialized resume m i
  initialized-EndsAs a shutdown m i =
      invoke-EndsAs S H initialized (H.do_shutdown a) _ _ (boot {Args = Args} H)
        (reject initialized) m (λ n k. move_to-EndsAs S H initialized booted n refl k)
        (λ n k. hold_bad-EndsAs S H initialized shutdown n k) i
  initialized-EndsAs a soft_init m i = hold_bad-EndsAs S H initialized soft_init m i
  initialized-EndsAs a reinit m i =
      invoke-EndsAs S H initialized (H.do_initialize a) _ _ (stay ready) (boot {Args = Args} H) m
        (λ n k. descend-EndsAs S H initialized initialized ready n refl refl k)
        (λ n k. move_to-EndsAs S H initialized booted n refl k) i
  initialized-EndsAs a in_run_failure m i = (i, refl, refl)

  pub ready-EndsAs :
      (again : Step S H) (a : Args) (t : Command) (m : Machine S Owner)
      → ((n : Machine S Owner)
          → IsIn S H initialized n
          → EndsAs S H (next H a initialized t n.process) (again n))
      → IsIn S H ready m
      → EndsAs S H (next H a ready t m.process) (ready_call S H again a t m)
  unfolding ready_call initialized_map_default refuse entry exit
  ready-EndsAs again a init m k i =
      ascend-EndsAs S H ready initialized _ again m refl i
        (λ n j e. subst (λ p. EndsAs S H (next H a initialized init p) (again n)) e (k n j))
  ready-EndsAs again a start m k i =
      invoke-EndsAs S H ready (H.do_start a) _ _ (stay running) (stay ready) m
        (λ n k. descend-EndsAs S H ready in_run running n refl refl k)
        (λ n k. skip-EndsAs S H ready n k) i
  ready-EndsAs again a stop m k i = hold_bad-EndsAs S H ready stop m i
  ready-EndsAs again a pause m k i = hold_bad-EndsAs S H ready pause m i
  ready-EndsAs again a resume m k i = hold_bad-EndsAs S H ready resume m i
  ready-EndsAs again a shutdown m k i =
      ascend-EndsAs S H ready initialized _ again m refl i
        (λ n j e. subst (λ p. EndsAs S H (next H a initialized shutdown p) (again n)) e (k n j))
  ready-EndsAs again a soft_init m k i = hold-invoke-EndsAs S H ready (H.do_soft_initialize a) m i
  ready-EndsAs again a reinit m k i = hold-invoke-EndsAs S H ready (H.do_reinitialize a) m i
  ready-EndsAs again a in_run_failure m k i = (i, refl, refl)

  pub in_run-EndsAs :
      (a : Args) (t : Command) (m : Machine S Owner)
      → IsIn S H in_run m
      → EndsAs S H (next H a in_run t m.process) (in_run_call S H a t m)
  unfolding in_run_call initialized_map_default refuse entry exit
  in_run-EndsAs a init m i = hold_bad-EndsAs S H in_run init m i
  in_run-EndsAs a start m i = hold_bad-EndsAs S H in_run start m i
  in_run-EndsAs a stop m i =
      invoke-EndsAs S H in_run (H.do_stop a) _ _ (end_run {Args = Args} H) (reject in_run) m
        (λ n k. move_to-EndsAs S H in_run ready n refl k)
        (λ n k. hold_bad-EndsAs S H in_run stop n k) i
  in_run-EndsAs a pause m i = hold_bad-EndsAs S H in_run pause m i
  in_run-EndsAs a resume m i = hold_bad-EndsAs S H in_run resume m i
  in_run-EndsAs a shutdown m i = hold_bad-EndsAs S H in_run shutdown m i
  in_run-EndsAs a soft_init m i = hold_bad-EndsAs S H in_run soft_init m i
  in_run-EndsAs a reinit m i = hold_bad-EndsAs S H in_run reinit m i
  in_run-EndsAs a in_run_failure m i = (i, refl, refl)

  pub running-EndsAs :
      (again : Step S H) (a : Args) (t : Command) (m : Machine S Owner)
      → ((n : Machine S Owner)
          → IsIn S H in_run n
          → EndsAs S H (next H a in_run t n.process) (again n))
      → IsIn S H running m
      → EndsAs S H (next H a running t m.process) (running_call S H again a t m)
  unfolding running_call in_run_map_default refuse entry exit
  running-EndsAs again a init m k i = hold_bad-EndsAs S H running init m i
  running-EndsAs again a start m k i = hold_bad-EndsAs S H running start m i
  running-EndsAs again a stop m k i =
      ascend-EndsAs S H running in_run _ again m refl i
        (λ n j e. subst (λ p. EndsAs S H (next H a in_run stop p) (again n)) e (k n j))
  running-EndsAs again a pause m k i =
      invoke-EndsAs S H running (H.do_pause a) _ _ (stay paused) (stay running) m
        (λ n k. move_to-EndsAs S H running paused n refl k) (λ n k. skip-EndsAs S H running n k) i
  running-EndsAs again a resume m k i = hold_bad-EndsAs S H running resume m i
  running-EndsAs again a shutdown m k i = hold_bad-EndsAs S H running shutdown m i
  running-EndsAs again a soft_init m k i = hold_bad-EndsAs S H running soft_init m i
  running-EndsAs again a reinit m k i = hold_bad-EndsAs S H running reinit m i
  running-EndsAs again a in_run_failure m k i = move_to-EndsAs S H running in_run_error m refl i

  pub paused-EndsAs :
      (again : Step S H) (a : Args) (t : Command) (m : Machine S Owner)
      → ((n : Machine S Owner)
          → IsIn S H in_run n
          → EndsAs S H (next H a in_run t n.process) (again n))
      → IsIn S H paused m
      → EndsAs S H (next H a paused t m.process) (paused_call S H again a t m)
  unfolding paused_call in_run_map_default refuse entry exit
  paused-EndsAs again a init m k i = hold_bad-EndsAs S H paused init m i
  paused-EndsAs again a start m k i = hold_bad-EndsAs S H paused start m i
  paused-EndsAs again a stop m k i =
      ascend-EndsAs S H paused in_run _ again m refl i
        (λ n j e. subst (λ p. EndsAs S H (next H a in_run stop p) (again n)) e (k n j))
  paused-EndsAs again a pause m k i = hold_bad-EndsAs S H paused pause m i
  paused-EndsAs again a resume m k i =
      invoke-EndsAs S H paused (H.do_resume a) _ _ (stay running) (stay paused) m
        (λ n k. move_to-EndsAs S H paused running n refl k) (λ n k. skip-EndsAs S H paused n k) i
  paused-EndsAs again a shutdown m k i = hold_bad-EndsAs S H paused shutdown m i
  paused-EndsAs again a soft_init m k i = hold_bad-EndsAs S H paused soft_init m i
  paused-EndsAs again a reinit m k i = hold_bad-EndsAs S H paused reinit m i
  paused-EndsAs again a in_run_failure m k i = (i, refl, refl)

  pub in_run_error-EndsAs :
      (again : Step S H) (a : Args) (t : Command) (m : Machine S Owner)
      → ((n : Machine S Owner)
          → IsIn S H in_run n
          → EndsAs S H (next H a in_run t n.process) (again n))
      → IsIn S H in_run_error m
      → EndsAs S H (next H a in_run_error t m.process) (in_run_error_call S H again a t m)
  unfolding in_run_error_call in_run_map_default refuse entry exit
  in_run_error-EndsAs again a init m k i = hold_bad-EndsAs S H in_run_error init m i
  in_run_error-EndsAs again a start m k i = hold_bad-EndsAs S H in_run_error start m i
  in_run_error-EndsAs again a stop m k i =
      ascend-EndsAs S H in_run_error in_run _ again m refl i
        (λ n j e. subst (λ p. EndsAs S H (next H a in_run stop p) (again n)) e (k n j))
  in_run_error-EndsAs again a pause m k i =
      invoke-EndsAs S H in_run_error (H.do_pause a) _ _ (stay paused) (stay in_run_error) m
        (λ n k. move_to-EndsAs S H in_run_error paused n refl k)
        (λ n k. skip-EndsAs S H in_run_error n k) i
  in_run_error-EndsAs again a resume m k i = hold_bad-EndsAs S H in_run_error resume m i
  in_run_error-EndsAs again a shutdown m k i = hold_bad-EndsAs S H in_run_error shutdown m i
  in_run_error-EndsAs again a soft_init m k i = hold_bad-EndsAs S H in_run_error soft_init m i
  in_run_error-EndsAs again a reinit m k i = hold_bad-EndsAs S H in_run_error reinit m i
  in_run_error-EndsAs again a in_run_failure m k i = (i, refl, refl)
