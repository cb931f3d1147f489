-- ===== src/Transport/Port.antt =====
-- crates/bornera/src/transport/port.rs: the trait `SlotTransport`, as a record of its operations on an
-- explicit state. `read` is given the slice of the buffer and returns the slice that it has written.
use bornera.Prelude.{ℕ, Bool, List, Result}
use bornera.Transport.Progress.{TcpSocketPolicy, TransportBudget, TransportProgress}
use bornera.Transport.Pressure.{TransportPressure}
use bornera.Transport.Diagnostic.{IoError, TransportError}

pub record SlotTransport (T : Type 0) : Type 0 where
  pub drive_establishment :
      T → TcpSocketPolicy → TransportBudget → T × Result TransportProgress TransportError
  pub drive_transport : T → TransportBudget → T × Result TransportProgress TransportError
  pub begin_shutdown : T → TransportBudget → T × Result TransportProgress TransportError
  pub can_establish : T → Bool
  pub has_transport_work : T → Bool
  pub is_shutdown_complete : T → Bool
  pub is_open : T → Bool
  pub can_read : T → Bool
  pub can_write : T → Bool
  pub pressure : T → TransportPressure
  -- `pressure_limit().retained_bytes()`
  pub pressure_limit : T → ℕ
  pub clear_read : T → T
  pub clear_write : T → T
  pub read : T → List ℕ → T × List ℕ × Result ℕ IoError
  pub write : T → List ℕ → T × Result ℕ IoError
