-- ===== src/Lock/System.antt =====
-- Component::runCycle of src/component/component.cpp and the queue thread beside it, as steps: the
-- simulation thread begins a cycle, blocks while hosts hold the lock, and runs the program; the
-- queue thread handles the messages of the hosts and the start of the lock.
use megastructure.Common.{ℕ, ◌≡◌, ◌⊎◌, Bool, true, false, Option, none, some, ok, []}
use megastructure.Protocol.{Operation, Content, Message}
use megastructure.Lock.State.{State, CycleState, SimulationLock, get_host_cycle_state}
use megastructure.Lock.Component.{Plugin, Component}
use megastructure.Lock.Manager.{simulation_lock_started}
use megastructure.Lock.Requests.{server_message}

-- `posted`: OnSimulationLockStarted is in the queue. `blocked`: the simulation thread waits for
-- the current lock to be released.
pub record System (P : Type 0) : Type 0 where
  pub component : Component P
  pub posted : Bool
  pub blocked : Bool

module _ (g : Plugin) where
  open g use {Program}

  unfoldable pub run_program : Component Program → Component Program
  run_program c = record c { program = elim c.program [ none ↦ none | some p ↦ some (g.run p) ] }

  -- runCycle after its jobs, up to the wait or to the end.
  unfoldable pub begin_cycle : System Program → System Program
  unfolding run_program
  begin_cycle s = elim s.component.current_lock [
    | some _ ↦ record {
      component = record s.component { current_lock_released = false };
      posted = true;
      blocked = true;
    }
    | none ↦ record s { component = run_program s.component }
  ]

  -- runCycle after the wait.
  unfoldable pub end_cycle : System Program → System Program
  unfolding run_program
  end_cycle s = record s { component = run_program s.component; blocked = false }

  -- What the protocol asks of the hosts: only a host that holds the lock unlocks it.
  abbrev pub IsHolder : ℕ → Component Program → Type 0
  IsHolder host c =
      (l : SimulationLock) × (s : CycleState) × (c.current_lock ≡ some l)
      × (get_host_cycle_state host l ≡ some s)
      × ((s.state ≡ State.reading) ⊎ (s.state ≡ State.writing))

  abbrev pub OperationConforms : Operation → ℕ → Component Program → Type 0
  OperationConforms Operation.unlock host c = IsHolder host c
  OperationConforms _ host c = Unit {0}

  abbrev pub ContentConforms : Content → Component Program → Type 0
  ContentConforms (Content.request r) c = OperationConforms r.operation r.host c
  ContentConforms _ c = Unit {0}

  abbrev pub Conforms : Message → Component Program → Type 0
  Conforms (Message.eg_msg m) c = ContentConforms m.content c
  Conforms _ c = Unit {0}

  -- A step of one of the two threads. A handler that throws aborts the process, so it makes none.
  pub data Step (s t : System Program) : Type 0 where
    begins : s.blocked ≡ false → t ≡ begin_cycle s → Step s t
    ends : s.blocked ≡ true → s.component.current_lock_released ≡ true → t ≡ end_cycle s → Step s t
    loads :
        (p : Option Program)
        → s.blocked ≡ false
        → t ≡ record s { component = record s.component { program = p } }
        → Step s t
    starts :
        (c : Component Program)
        → s.posted ≡ true
        → simulation_lock_started g s.component ≡ ok c
        → t ≡ record s { component = c; posted = false }
        → Step s t
    receives :
        (m : Message) (c : Component Program) (handled : Bool)
        → Conforms m s.component
        → server_message g m s.component ≡ ok (c, handled)
        → t ≡ record s { component = c }
        → Step s t

  pub data Reach (s : System Program) : System Program → Type 0 where
    here : Reach s s
    next : {t u : System Program} → Reach s t → Step t u → Reach s u

  -- The component as it is constructed.
  unfoldable pub initial : System Program
  initial = record {
    component = record {
      current_lock = none;
      future_lock = none;
      current_lock_released = false;
      program = none;
      sent = [];
    };
    posted = false;
    blocked = false;
  }
