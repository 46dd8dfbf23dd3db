-- ===== src/Status.antt =====
-- The codes of gRPC errors (tonic::Code) that the services answer with; messages are left out.
pub data Code : Type 0 where
  internal not_found invalid_argument unavailable aborted out_of_range : Code
