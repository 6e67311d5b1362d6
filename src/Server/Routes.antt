-- ===== src/Server/Routes.antt =====
-- server.go, `registerRoutes`: each endpoint behind its middleware.
pub mod Guarded
pub mod Shaped
use ileap_go.Common.{Bytes}
use ileap_go.Service.{Service}
use ileap_go.Server.Http.{Request, Response}
use ileap_go.Server.Lists.{list_footprints, get_footprint, list_tads}
use ileap_go.Server.Auth.{AuthHandler, Clock, pact_gate, pact_events_gate, ileap_gate, through}
use ileap_go.Server.Events.{Codec, EventRequest, events}

module _ {Footprint Tad Token Config Keys : Type 0} (auth : AuthHandler Token Config Keys)
    (clock : Clock) (codec : Codec) (service : Service Footprint Tad) where
  -- `GET /2/footprints`, with the header `Authorization`.
  unfoldable pub footprints_route : Bytes → Request → Response Footprint
  unfolding pact_gate through list_footprints
  footprints_route header r = through (pact_gate auth header) (λ token. list_footprints service r)

  -- `GET /2/footprints/{id}`
  unfoldable pub footprint_route : Bytes → Bytes → Response Footprint
  unfolding pact_gate through get_footprint
  footprint_route header id = through (pact_gate auth header) (λ token. get_footprint service id)

  -- `GET /2/ileap/tad`
  unfoldable pub tads_route : Bytes → Request → Response Tad
  unfolding ileap_gate through list_tads
  tads_route header r = through (ileap_gate auth clock header) (λ token. list_tads service r)

  -- `POST /2/events`
  unfoldable pub events_route : {A : Type 0} → Bytes → EventRequest → Response A
  unfolding pact_events_gate through events
  events_route header r = through (pact_events_gate auth header) (λ token. events codec r)
