-- ===== src/Limits.antt =====
-- limits.rs, and write/limits.rs: the bounds of one connection epoch.
pub mod KeySpace
use bornera.Prelude.{ℕ, ◌==◌, if◌then◌else◌, Result, ok, err}
use KeySpace.{MatchKeySpace, LimitsError, zero_operation_capacity, zero_write_capacity}

pub record ConnectionLimits : Type 0 where
  pub max_operations : ℕ
  pub max_retained_bytes : ℕ
  pub max_write_frames : ℕ
  pub max_write_retained_bytes : ℕ
  pub match_keys : MatchKeySpace

pub record WriteQueueLimits : Type 0 where
  pub max_frames : ℕ
  pub max_retained_bytes : ℕ

unfoldable pub new : ℕ → ℕ → ℕ → ℕ → MatchKeySpace → Result ConnectionLimits LimitsError
new max_operations max_retained_bytes max_write_frames max_write_retained_bytes match_keys =
    if max_operations == 0
    then err zero_operation_capacity
    else (if max_write_frames == 0
        then err zero_write_capacity
        else ok (record {
          max_operations = max_operations;
          max_retained_bytes = max_retained_bytes;
          max_write_frames = max_write_frames;
          max_write_retained_bytes = max_write_retained_bytes;
          match_keys = match_keys;
        }))

abbrev pub write_queue_limits : ConnectionLimits → WriteQueueLimits
write_queue_limits l = record {
  max_frames = l.max_write_frames;
  max_retained_bytes = l.max_write_retained_bytes;
}
