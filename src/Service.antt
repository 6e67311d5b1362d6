-- ===== src/Service.antt =====
-- The service interface between the HTTP server and its backends: the messages of
-- `ILeapServiceHandler` and the error codes of Connect.
use ileap_go.Common.{List, Bytes, ℤ}
use ileap_go.Filter.{Filter}

-- `connect.Code`: the codes that the server tells apart, and the others together.
pub data Code : Type 0 where
  unimplemented not_found invalid_argument permission_denied : Code
  unauthenticated resource_exhausted unavailable other : Code

-- What a call gives: a value, or an error with its `connect.CodeOf` and its text.
pub data Result (A : Type 0) : Type 0 where
  ok : A → Result A
  err : Code → Bytes → Result A

-- `ListFootprintsRequest` and `ListTransportActivityDataRequest`; limit and offset are `int32`.
pub record ListRequest : Type 0 where
  pub limit : ℤ
  pub offset : ℤ
  pub filters : List Filter

-- `ListFootprintsResponse` and `ListTransportActivityDataResponse`; the total is an `int32`.
pub record ListResponse (A : Type 0) : Type 0 where
  pub items : List A
  pub total : ℤ

pub record Service (Footprint Tad : Type 0) : Type 0 where
  pub list_footprints : ListRequest → Result (ListResponse Footprint)
  pub get_footprint : Bytes → Result Footprint
  pub list_transport_activity_data : ListRequest → Result (ListResponse Tad)
