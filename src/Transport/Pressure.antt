-- ===== src/Transport/Pressure.antt =====
-- crates/bornera/src/transport/pressure.rs: the bytes that a transport retains.
use bornera.Prelude.{ℕ, none, some, Result, ok, err}
use bornera.Host.{Calandria}

pub record TransportPressure : Type 0 where
  pub inbound : ℕ
  pub outbound : ℕ
  pub plaintext : ℕ
  pub protocol : ℕ
  pub total : ℕ

-- TransportPressure::ZERO
abbrev pub zero_pressure : TransportPressure
zero_pressure = record { inbound = 0; outbound = 0; plaintext = 0; protocol = 0; total = 0 }

pub data TransportPressureError : Type 0 where
  pressure_overflow : TransportPressureError

module _ ⦃host : Calandria⦄ where
  unfoldable pub new : ℕ → ℕ → ℕ → ℕ → Result TransportPressure TransportPressureError
  new inbound outbound plaintext protocol = elim (host.checked_add inbound outbound) [
    | none ↦ err pressure_overflow
    | some total ↦ elim (host.checked_add total plaintext) [
      | none ↦ err pressure_overflow
      | some total' ↦ elim (host.checked_add total' protocol) [
        | none ↦ err pressure_overflow
        | some all ↦ ok (record {
          inbound = inbound;
          outbound = outbound;
          plaintext = plaintext;
          protocol = protocol;
          total = all;
        })
      ]
    ]
  ]
