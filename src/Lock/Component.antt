-- ===== src/Lock/Component.antt =====
-- src/component/component.cpp: the current and the future simulation lock of a component, the
-- program it runs and what it sends on the eg socket. The program is loaded at run time from a
-- plugin; `Plugin` holds the calls of it that the lock's handlers make.
use megastructure.Common.{ℕ, Bool, true, List, [], ◌∷◌, ◌++◌, Option, none, some}
use megastructure.Protocol.{Bytes, EgMsg}
use megastructure.Lock.State.{SimulationLock}

pub record Plugin : Type 1 where
  pub Program : Type 0
  pub encode : Program → ℕ → ℕ → Bytes
  pub decode : Program → Bytes → Program
  pub current_cycle : Program → ℕ
  pub run : Program → Program

-- `sent` is the sequence of messages sent on the eg socket, oldest first. The exception that a failed
-- socket raises is not modelled: every send succeeds.
pub record Component (P : Type 0) : Type 0 where
  pub current_lock : Option SimulationLock
  pub future_lock : Option SimulationLock
  pub current_lock_released : Bool
  pub program : Option P
  pub sent : List EgMsg

module _ {P : Type 0} where
  -- Writing through the shared pointers of the two locks.
  unfoldable pub put_current_lock : SimulationLock → Component P → Component P
  put_current_lock l c = record c { current_lock = some l }

  unfoldable pub put_future_lock : SimulationLock → Component P → Component P
  put_future_lock l c = record c { future_lock = some l }

  unfoldable pub get_or_create_current_lock : Component P → SimulationLock × Component P
  get_or_create_current_lock c = elim c.current_lock [
    | some l ↦ (l, c)
    | none ↦ elim c.future_lock [
      | some f ↦ (f, record c { current_lock = some f; future_lock = none })
      | none ↦ ([], record c { current_lock = some [] })
    ]
  ]

  unfoldable pub get_or_create_future_lock : Component P → SimulationLock × Component P
  get_or_create_future_lock c = elim c.future_lock [
    | some f ↦ (f, c)
    | none ↦ ([], record c { future_lock = some [] })
  ]

  -- The future lock, if there is one, becomes the current one.
  unfoldable pub release_current_lock : Component P → Component P
  release_current_lock c = record c {
    current_lock = c.future_lock;
    future_lock = none;
    current_lock_released = true;
  }

  unfoldable pub send_eg : EgMsg → Component P → Component P
  send_eg m c = record c { sent = c.sent ++ (m ∷ []) }
