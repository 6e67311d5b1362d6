-- ===== src/Filter.antt =====
-- The filter message that the HTTP boundary builds and the service handlers read
-- (proto/gen/wayplatform/connect/ileap/v1/filter.pb.go).
use ileap_go.Common.{Bytes}

-- `Filter_Operator`, in the order of its numbers.
pub data Operator : Type 0 where
  unspecified eq ne lt le gt ge : Operator

pub record Filter : Type 0 where
  pub field_path : Bytes
  pub operator : Operator
  pub value : Bytes
