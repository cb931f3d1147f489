-- ===== src/Slot/Limits.antt =====
-- crates/bornera/src/config/: the identity, the configuration and the limits of a slot.
use bornera.Prelude.{ℕ, ◌*◌, ◌^◌, Option, none, some, ltb, ◌==◌, if◌then◌else◌, Result, ok, err}
use bornera.Identity.{EndpointId, LaneId, ConnectionId, ConnectionEpoch}
use bornera.Limits.{ConnectionLimits}
use bornera.Admission.Options.{Deadline}
use bornera.Transport.Progress.{TcpSocketPolicy, default_policy}

pub record ConnectionIdentity : Type 0 where
  pub endpoint : EndpointId
  pub lane : LaneId
  pub connection : ConnectionId
  pub epoch : ConnectionEpoch

pub record ConnectionSlotConfig : Type 0 where
  pub identity : ConnectionIdentity
  pub connect_deadline : Deadline
  pub timer_owner : ℕ
  pub socket_policy : TcpSocketPolicy

unfoldable pub new_config : ConnectionIdentity → Deadline → ℕ → ConnectionSlotConfig
new_config identity connect_deadline timer_owner = record {
  identity = identity;
  connect_deadline = connect_deadline;
  timer_owner = timer_owner;
  socket_policy = default_policy;
}

pub record DecoderLimits : Type 0 where
  pub buffered_bytes : ℕ
  pub reply_bytes : ℕ

pub record IoLimits : Type 0 where
  pub operations : ℕ
  pub chunk_bytes : ℕ

pub record TransportLimits : Type 0 where
  pub retained_bytes : ℕ

pub record PublicationLimits : Type 0 where
  pub lifecycle_events : ℕ

pub data ConnectionSlotLimitsError : Type 0 where
  zero_operation_capacity outcome_retained_overflow : ConnectionSlotLimitsError

pub record ConnectionSlotLimits : Type 0 where
  pub connection : ConnectionLimits
  pub decoder : DecoderLimits
  pub io : IoLimits
  pub transport : TransportLimits
  pub publication : PublicationLimits
  pub outcome_bytes : ℕ
  pub operation_capacity : ℕ

-- u64::checked_mul; every `usize` is a `u64`.
abbrev pub checked_mul_u64 : ℕ → ℕ → Option ℕ
checked_mul_u64 a b = if ltb (a * b) (2 ^ 64) then some (a * b) else none

unfoldable pub new :
    ConnectionLimits
    → DecoderLimits
    → IoLimits
    → TransportLimits
    → PublicationLimits
    → Result ConnectionSlotLimits ConnectionSlotLimitsError
new connection decoder io transport publication =
    if connection.max_operations == 0
    then err zero_operation_capacity
    else (elim (checked_mul_u64 decoder.reply_bytes connection.max_operations) [
      | none ↦ err outcome_retained_overflow
      | some outcome_bytes ↦ ok (record {
        connection = connection;
        decoder = decoder;
        io = io;
        transport = transport;
        publication = publication;
        outcome_bytes = outcome_bytes;
        operation_capacity = connection.max_operations;
      })
    ])

-- `recovery_lifecycle`: room for the four events of an epoch at least.
unfoldable pub recovery_lifecycle : ConnectionSlotLimits → ℕ
recovery_lifecycle l =
    if ltb l.publication.lifecycle_events 4 then 4 else l.publication.lifecycle_events
