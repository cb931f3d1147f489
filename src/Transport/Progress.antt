-- ===== src/Transport/Progress.antt =====
-- crates/bornera/src/transport/budget.rs, transport/progress.rs and socket.rs: one step's budget, what
-- a step reports, and the socket policy. A `NonZeroUsize` is a number; `new` keeps it positive.
use bornera.Prelude.{
  ℕ, ◌<◌, ◌≡◌, Bool, false, ◌&&◌, Option, none, leb, ◌==◌, if◌then◌else◌, Result, ok, err,
}

pub record TransportBudget : Type 0 where
  pub operations : ℕ
  pub read_bytes : ℕ
  pub write_bytes : ℕ

pub record TransportProgress : Type 0 where
  pub operations : ℕ
  pub read_bytes : ℕ
  pub written_bytes : ℕ

-- TransportProgress::IDLE
abbrev pub idle : TransportProgress
idle = record { operations = 0; read_bytes = 0; written_bytes = 0 }

-- TransportProgress::operation
abbrev pub operation : TransportProgress
operation = record { operations = 1; read_bytes = 0; written_bytes = 0 }

unfoldable pub fits : TransportProgress → TransportBudget → Bool
fits p budget =
    leb p.operations budget.operations
    && leb p.read_bytes budget.read_bytes
    && leb p.written_bytes budget.write_bytes

unfoldable pub is_idle : TransportProgress → Bool
is_idle p = p.operations == 0 && p.read_bytes == 0 && p.written_bytes == 0

-- What `IDLE` and `new`, whose operations are nonzero, can make.
abbrev pub IsMade : TransportProgress → Type 0
IsMade p = is_idle p ≡ false → 0 < p.operations

pub data TcpNoDelay : Type 0 where
  enabled disabled : TcpNoDelay

-- The idle time of keepalive, in nanoseconds.
pub record TcpKeepalivePolicy : Type 0 where
  pub idle_nanos : ℕ

pub data SocketPolicyError : Type 0 where
  zero_keepalive_idle : SocketPolicyError

unfoldable pub new_keepalive : ℕ → Result TcpKeepalivePolicy SocketPolicyError
new_keepalive nanos =
    if nanos == 0 then err zero_keepalive_idle else ok (record { idle_nanos = nanos })

pub record TcpSocketPolicy : Type 0 where
  pub no_delay : TcpNoDelay
  pub keepalive : Option TcpKeepalivePolicy

-- TcpSocketPolicy::DEFAULT
abbrev pub default_policy : TcpSocketPolicy
default_policy = record { no_delay = enabled; keepalive = none }
