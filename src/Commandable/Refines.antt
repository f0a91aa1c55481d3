-- ===== src/Commandable/Refines.antt =====
-- The state classes, over any context that the laws of `StateMap` hold of, are the plain automaton. Classes
-- has the state classes one by one.
pub mod Classes
use mathlib.Core.Path.{subst}
use artdaq.Prelude.{◌≡◌, refl, sym, ◌∙◌, Option, none, some, ap, Bool, true, false, ◌∷◌}
use artdaq.Commandable.{
  State, Failure, StateMap, Handlers, Machine, Command, Process, state_undefined, from_handler,
}
use artdaq.Commandable.Automaton.{stack_of, Result, stay, reject, by_answer}
use artdaq.Commandable.Transitions.{
  skip, after, and_then, entry, exit, hooked, enter_state, exit_state, change_to, move_to, Step,
  push, popped, pop, descend, ascend, answered, invoke, restored, held, hold, blamed,
  bad_transition,
}

module _ (S : StateMap) {Owner Args : Type 0} (H : Handlers Owner Args) where
  -- The machine is in a state, with the stack that belongs to it.
  abbrev pub IsIn : State → Machine S Owner → Type 0
  IsIn s m = (S.current m.context ≡ some s) × (S.stacked m.context ≡ stack_of s)

  -- A step has ended as a result of the automaton says.
  abbrev pub EndsAs : Result Owner → Machine S Owner × Option Failure → Type 0
  EndsAs r (m, e) = IsIn r.0 m × (m.process ≡ r.1) × (e ≡ r.2)

  pub skip-EndsAs :
      (s : State) (m : Machine S Owner) → IsIn s m → EndsAs (stay s m.process) (skip S H m)
  unfolding skip
  skip-EndsAs s m i = (i, refl, refl)

  -- After a step that ends without an exception.
  after-EndsAs :
      (s : State) (p : Process Owner) (r : Result Owner) (next_step : Step S H)
      (done : Machine S Owner × Option Failure)
      → EndsAs (stay s p) done
      → ((n : Machine S Owner) → IsIn s n → n.process ≡ p → EndsAs r (next_step n))
      → EndsAs r (after S H next_step done)
  unfolding after
  after-EndsAs s p r next_step (n, none) d k = k n d.0 d.1
  after-EndsAs s p r next_step (n, some e) d k = cc

  pub move_to-EndsAs :
      (s u : State) (m : Machine S Owner)
      → stack_of u ≡ stack_of s
      → IsIn s m
      → EndsAs (stay u (entry S H u (exit S H s m.process))) (move_to S H u m)
  unfolding move_to and_then after exit_state enter_state hooked change_to
  move_to-EndsAs s u m same i =
      rw (i.0, S.current-set_state m.context u)
        (
          (S.current-set_state m.context u, S.stacked-set_state m.context u ∙ i.1 ∙ sym same),
          refl,
          refl,
        )

  push-EndsAs :
      (s t : State) (m : Machine S Owner)
      → stack_of t ≡ s ∷ stack_of s
      → IsIn s m
      → EndsAs (stay t (entry S H t m.process)) (and_then S H (push S H t) (enter_state S H) m)
  unfolding and_then after enter_state hooked push
  push-EndsAs s t m below i = rw (S.current-push_state m.context t) (
    (
      S.current-push_state m.context t,
      S.stacked-push_state m.context s t i.0 ∙ ap (λ r. s ∷ r) i.1 ∙ sym below,
    ),
    refl,
    refl,
  )

  pub descend-EndsAs :
      (s u t : State) (m : Machine S Owner)
      → stack_of u ≡ stack_of s
      → stack_of t ≡ u ∷ stack_of u
      → IsIn s m
      → EndsAs (stay t (entry S H t (entry S H u (exit S H s m.process)))) (descend S H u t m)
  unfolding descend and_then
  descend-EndsAs s u t m same below i =
      after-EndsAs u (entry S H u (exit S H s m.process)) _ _ _ (move_to-EndsAs s u m same i)
        (λ n k e.
          subst
            (λ p. EndsAs (stay t (entry S H t p)) (and_then S H (push S H t) (enter_state S H) n)) e
            (push-EndsAs u t n below k))

  exit_state-EndsAs :
      (s : State) (m : Machine S Owner)
      → IsIn s m
      → EndsAs (stay s (exit S H s m.process)) (exit_state S H m)
  unfolding exit_state hooked
  exit_state-EndsAs s m i = rw i.0 (i, refl, refl)

  pop-EndsAs :
      (s u : State) (m : Machine S Owner)
      → stack_of s ≡ u ∷ stack_of u
      → IsIn s m
      → EndsAs (stay u m.process) (pop S H m)
  unfolding pop popped
  pop-EndsAs s u m above i =
      let top = S.pop_state-top m.context u (stack_of u) (i.1 ∙ above) in
      rw top.1 ((top.2, top.3), refl, refl)

  -- The command again in the state above.
  pub ascend-EndsAs :
      (s u : State) (r : Result Owner) (again : Step S H) (m : Machine S Owner)
      → stack_of s ≡ u ∷ stack_of u
      → IsIn s m
      → ((n : Machine S Owner) → IsIn u n → n.process ≡ exit S H s m.process → EndsAs r (again n))
      → EndsAs r (ascend S H again m)
  unfolding ascend and_then
  ascend-EndsAs s u r again m above i k =
      after-EndsAs s (exit S H s m.process) r _ _ (exit_state-EndsAs s m i) (λ n j e.
        after-EndsAs u n.process r again _ (pop-EndsAs s u n above j) (λ l v f. k l v (f ∙ e)))

  answered-EndsAs :
      (s : State) (done failed : Step S H) (D F : Process Owner → Result Owner)
      (reply : Process Owner × Option Bool) (m : Machine S Owner)
      → ((n : Machine S Owner) → IsIn s n → EndsAs (D n.process) (done n))
      → ((n : Machine S Owner) → IsIn s n → EndsAs (F n.process) (failed n))
      → IsIn s m
      → EndsAs (by_answer D F s reply) (answered S H done failed reply m)
  unfolding answered
  answered-EndsAs s done failed D F (p, none) m d f i = (i, refl, refl)
  answered-EndsAs s done failed D F (p, some true) m d f i = d (record m { process = p }) i
  answered-EndsAs s done failed D F (p, some false) m d f i = f (record m { process = p }) i

  pub invoke-EndsAs :
      (s : State) (handler : Process Owner → Process Owner × Option Bool) (done failed : Step S H)
      (D F : Process Owner → Result Owner) (m : Machine S Owner)
      → ((n : Machine S Owner) → IsIn s n → EndsAs (D n.process) (done n))
      → ((n : Machine S Owner) → IsIn s n → EndsAs (F n.process) (failed n))
      → IsIn s m
      → EndsAs (by_answer D F s (handler m.process)) (invoke S H handler done failed m)
  unfolding invoke
  invoke-EndsAs s handler done failed D F m d f i =
      answered-EndsAs s done failed D F (handler m.process) m d f i

  -- An action under `hold` that leaves the stack alone.
  restored-EndsAs :
      (s : State) (p : Process Owner) (e : Option Failure) (done : Machine S Owner × Option Failure)
      → S.stacked done.0.context ≡ stack_of s
      → done.0.process ≡ p
      → done.1 ≡ e
      → EndsAs (s, p, e) (restored S H s done)
  unfolding restored
  restored-EndsAs s p e (n, f) k q g =
      ((S.current-set_state n.context s, S.stacked-set_state n.context s ∙ k), q, g)

  hold_answered :
      (s : State) (reply : Process Owner × Option Bool) (m : Machine S Owner)
      → S.stacked m.context ≡ stack_of s
      → EndsAs
          (by_answer (stay s) (stay s) s reply)
          (restored S H s (answered S H (skip S H) (skip S H) reply m))
  unfolding answered skip
  hold_answered s (p, none) m k = restored-EndsAs s p (some from_handler) _ k refl refl
  hold_answered s (p, some true) m k = restored-EndsAs s p none _ k refl refl
  hold_answered s (p, some false) m k = restored-EndsAs s p none _ k refl refl

  pub hold-invoke-EndsAs :
      (s : State) (handler : Process Owner → Process Owner × Option Bool) (m : Machine S Owner)
      → IsIn s m
      → EndsAs
          (by_answer (stay s) (stay s) s (handler m.process))
          (hold S H (invoke S H handler (skip S H) (skip S H)) m)
  unfolding hold held invoke
  hold-invoke-EndsAs s handler m i = rw i.0 (
      hold_answered s (handler m.process) (record m { context = S.clear_state m.context })
        (S.stacked-clear_state m.context ∙ i.1))

  pub hold_bad-EndsAs :
      (s : State) (t : Command) (m : Machine S Owner)
      → IsIn s m
      → EndsAs (reject s m.process) (hold S H (bad_transition S H t) m)
  unfolding hold held bad_transition blamed
  hold_bad-EndsAs s t m i =
      rw (i.0, S.current-clear_state m.context)
        (restored-EndsAs s m.process (some state_undefined) _
          (S.stacked-clear_state m.context ∙ i.1) refl refl)
