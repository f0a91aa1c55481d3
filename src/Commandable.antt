-- ===== src/Commandable.antt =====
-- artdaq/Application/Commandable.cc and .hh and artdaq/Application/detail/Commandable_sm.cpp and .h: the
-- run states of a process and the commands that move it between them. Commandable_sm is generated code
-- over statemap.h, the runtime library of the State Machine Compiler, whose context class is the
-- parameter `StateMap`. The virtual functions of `Commandable` are the parameter `Handlers`.
pub mod Transitions
pub mod Commands
pub mod Automaton
pub mod Refines
pub mod Executes
pub mod Legal
mod Tests
use artdaq.Prelude.{ℕ, ◌≡◌, Bool, Option, none, some, List, ◌∷◌}

pub data State : Type 0 where
  booted initialized : State
  ready in_run : State
  running paused in_run_error : State

pub data Command : Type 0 where
  init start stop pause resume shutdown soft_init reinit in_run_failure : Command

-- The exceptions: `StateUndefinedException`, `TransitionUndefinedException`,
-- `PopOnEmptyStateStackException`, one out of a virtual function, and calls nested too deep.
pub data Failure : Type 0 where
  state_undefined transition_undefined pop_on_empty from_handler too_deep : Failure

-- The texts of `report_string_`: those of `Commandable`, and those of the classes derived from it.
pub data Report : Type 0 where
  all_is_ok error_while_running : Report
  invalid_transition : Command → State → Report
  of_handler : ℕ → Report

-- `FSMContext` of statemap.h: its state, none within a transition, its stack, and the four methods that
-- change them, with the laws of what they leave.
pub record StateMap : Type 1 where
  pub Context : Type 0
  pub current : Context → Option State
  pub stacked : Context → List State
  pub clear_state : Context → Context
  pub set_state : Context → State → Context
  pub push_state : Context → State → Context
  pub pop_state : Context → Option Context
  pub current-clear_state : (c : Context) → current (clear_state c) ≡ none
  pub stacked-clear_state : (c : Context) → stacked (clear_state c) ≡ stacked c
  pub current-set_state : (c : Context) (s : State) → current (set_state c s) ≡ some s
  pub stacked-set_state : (c : Context) (s : State) → stacked (set_state c s) ≡ stacked c
  pub current-push_state : (c : Context) (s : State) → current (push_state c s) ≡ some s
  pub stacked-push_state :
      (c : Context) (s t : State) → current c ≡ some s → stacked (push_state c t) ≡ s ∷ stacked c
  pub pop_state-top :
      (c : Context) (s : State) (rest : List State)
      → stacked c ≡ s ∷ rest
      → (d : Context) × (pop_state c ≡ some d) × (current d ≡ some s) × (stacked d ≡ rest)

-- The members of `Commandable`, and those of the derived class.
pub record Process (Owner : Type 0) : Type 0 where
  pub owner : Owner
  pub external_request_status : Bool
  pub report_string : Report

-- The virtual functions, which answer whether they were successful or, `none`, throw. `Args` stands for
-- the arguments of a command: the parameter set or the run ID, the timeout and the timestamp.
-- `BootedEnter` is taken not to throw: those of the repository log and reset a pointer at most. `InRunExit`
-- and `badTransition` are those of `Commandable`, as no class of the repository has one of its own.
pub record Handlers (Owner Args : Type 0) : Type 0 where
  pub do_initialize : Args → Process Owner → Process Owner × Option Bool
  pub do_start : Args → Process Owner → Process Owner × Option Bool
  pub do_stop : Args → Process Owner → Process Owner × Option Bool
  pub do_pause : Args → Process Owner → Process Owner × Option Bool
  pub do_resume : Args → Process Owner → Process Owner × Option Bool
  pub do_shutdown : Args → Process Owner → Process Owner × Option Bool
  pub do_soft_initialize : Args → Process Owner → Process Owner × Option Bool
  pub do_reinitialize : Args → Process Owner → Process Owner × Option Bool
  pub booted_enter : Process Owner → Process Owner
  pub in_run_exit : Process Owner → Process Owner

pub record Machine (S : StateMap) (Owner : Type 0) : Type 0 where
  pub context : S.Context
  pub process : Process Owner
