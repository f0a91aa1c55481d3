-- ===== src/Commandable/Tests.antt =====
-- The run states over a concrete context.
use artdaq.Prelude.{All, ◌≡◌, refl, ap, true, false, Option, none, some, List, [], ◌∷◌}
use artdaq.Commandable.{
  State, Command, StateMap, Process, Handlers, Machine, ready, running, paused, init, start, stop,
  shutdown, state_undefined, all_is_ok,
}
use artdaq.Commandable.Automaton.{stack_of, next}
use artdaq.Commandable.Commands.{commandable_handlers, begun, execute, legal_commands, threw}
use artdaq.Commandable.Executes.{first_report, Comes, execute-Comes}
use artdaq.Commandable.Legal.{promised, refused-Comes, failed_stop-traps, legal-succeeds}
use artdaq.Commandable.Refines.{IsIn}

abbrev pop_of : List State → Option (Option State × List State)
pop_of [] = none
pop_of (s ∷ rest) = some (some s, rest)

abbrev push_of : Option State → List State → List State
push_of none rest = rest
push_of (some s) rest = s ∷ rest

-- A context is its state and its stack.
abbrev plain : StateMap
plain = record {
  Context = Option State × List State;
  current = λ c. c.0;
  stacked = λ c. c.1;
  clear_state = λ c. (none, c.1);
  set_state = λ c s. (some s, c.1);
  push_state = λ c s. (some s, push_of c.0 c.1);
  pop_state = λ c. pop_of c.1;
  current-clear_state = λ c. refl;
  stacked-clear_state = λ c. refl;
  current-set_state = λ c s. refl;
  stacked-set_state = λ c s. refl;
  current-push_state = λ c s. refl;
  stacked-push_state = λ c s t e. ap (λ o. push_of o c.1) e;
  pop_state-top = λ c s rest e. ((some s, rest), ap pop_of e, refl, refl);
}

abbrev well : Process Unit
well = record { owner = tt; external_request_status = true; report_string = all_is_ok }

abbrev at : State → Machine plain Unit
at s = record { context = (some s, stack_of s); process = well }

-- A process whose data taking cannot be stopped.
abbrev cannot_stop : Handlers Unit Unit
cannot_stop = record commandable_handlers {
  do_stop = λ a p. (record p { external_request_status = false }, some false);
}

execute-Comes_example :
    Comes plain cannot_stop
      (next cannot_stop tt ready start (begun plain cannot_stop all_is_ok well))
      (execute plain cannot_stop start tt (at ready))
unfolding first_report
execute-Comes_example = execute-Comes plain cannot_stop tt start ready (at ready) (refl, refl)

refused-Comes_example :
    IsIn plain cannot_stop paused (execute plain cannot_stop start tt (at paused)).0
    × ((execute plain cannot_stop start tt (at paused)).1 ≡ threw state_undefined)
    × ((execute plain cannot_stop start tt (at paused)).0.process.report_string
        ≡ first_report start)
    × ((execute plain cannot_stop start tt (at paused)).0.process.external_request_status ≡ true)
refused-Comes_example =
    refused-Comes plain cannot_stop tt start paused (at paused) (refl, refl) refl

failed_stop-traps_example :
    ((execute plain cannot_stop stop tt (at running)).1 ≡ threw state_undefined)
    × (legal_commands plain cannot_stop (execute plain cannot_stop stop tt (at running)).0
        ≡ some (init ∷ shutdown ∷ []))
    × All
        (λ t.
          (execute plain cannot_stop t tt (execute plain cannot_stop stop tt (at running)).0).1
          ≡ threw state_undefined)
        (init ∷ shutdown ∷ [])
unfolding begun
failed_stop-traps_example =
    failed_stop-traps plain cannot_stop tt running (at running)
      (record well { external_request_status = false }) (refl, refl) refl refl

legal-succeeds_example :
    (cs : List Command) × (legal_commands plain (commandable_handlers {Args = Unit}) (at paused)
      ≡ some cs)
    × All (λ t. (execute plain commandable_handlers t tt (at paused)).1 ≡ promised paused) cs
legal-succeeds_example = legal-succeeds plain tt paused (at paused) (refl, refl)
