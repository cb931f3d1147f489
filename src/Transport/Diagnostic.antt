-- ===== src/Transport/Diagnostic.antt =====
-- crates/bornera/src/snapshot.rs and transport/error.rs: the states of a transport, and what is kept of
-- its failure. Of `std::io::ErrorKind` the kinds that the crate tells apart have names.
use bornera.Prelude.{ℕ, Option, none}

pub data ErrorKind : Type 0 where
  would_block timed_out not_connected other : ErrorKind
  unnamed : ℕ → ErrorKind

-- std::io::Error: its kind and the code of the system.
pub record IoError : Type 0 where
  pub kind : ErrorKind
  pub raw_os_error : Option ℕ

pub data TransportState : Type 0 where
  connecting opened closing closed : TransportState

pub data TransportFailurePhase : Type 0 where
  connect socket_policy establishment transport_read transport_write : TransportFailurePhase
  read write shutdown pressure readiness : TransportFailurePhase

pub data TransportFailureKind : Type 0 where
  io protocol certificate server_name truncated capacity timed_out contract : TransportFailureKind

pub record TransportDiagnostic : Type 0 where
  pub phase : TransportFailurePhase
  pub failure : TransportFailureKind
  pub kind : ErrorKind
  pub raw_os_error : Option ℕ
  pub code : Option ℕ

unfoldable pub new :
    TransportFailurePhase → TransportFailureKind → ErrorKind → Option ℕ → TransportDiagnostic
new phase failure kind code = record {
  phase = phase;
  failure = failure;
  kind = kind;
  raw_os_error = none;
  code = code;
}

unfoldable pub from_io : TransportFailurePhase → IoError → TransportDiagnostic
from_io phase e = record {
  phase = phase;
  failure = io;
  kind = e.kind;
  raw_os_error = e.raw_os_error;
  code = none;
}

unfoldable pub in_phase : TransportDiagnostic → TransportFailurePhase → TransportDiagnostic
in_phase d phase = record d { phase = phase }

-- `TransportError`: its diagnostic, and the error that it came from.
pub record TransportError : Type 0 where
  pub diagnostic : TransportDiagnostic
  pub source : Option IoError
