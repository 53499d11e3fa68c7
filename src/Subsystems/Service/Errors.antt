-- ===== src/Subsystems/Service/Errors.antt =====
-- `ServiceError` of src/subsystems/coalition_actor.rs. The text of a panic is left out.
use koalisi.Common.{Bool, true, false}
use koalisi.Topology.Errors.{TemporalError, lock_poisoned, task_cancelled}

pub data ServiceError (E : Type 0) : Type 0 where
  gone reply_dropped cancelled panicked : ServiceError E
  topology : TemporalError E → ServiceError E

unfoldable pub is_final : {E : Type 0} → TemporalError E → Bool
is_final lock_poisoned = true
is_final task_cancelled = true
is_final _ = false

unfoldable pub is_terminal : {E : Type 0} → ServiceError E → Bool
unfolding is_final
is_terminal (topology error) = is_final error
is_terminal _ = true
