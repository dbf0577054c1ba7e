-- ===== src/Status.antt =====
-- include/esbridge.h: ESB_Status, the result of every call of the C interface.
pub data Status : Type 0 where
  ok : Status
  no_provider no_field unset type_mismatch not_owner unknown_aircraft : Status
  stale_aircraft buffer_too_small provider_taken wrong_thread invalid_arg : Status
  schema_conflict limit no_bridge shutdown : Status
