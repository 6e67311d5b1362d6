-- ===== src/Client/Requests/Remote.antt =====
-- client_footprint_list.go and client_tad_list.go over the routes of server.go: a call of the client
-- is a call of the service.
use ileap_go.Common.{ℕ, true, [], ◌≡◌, Option, some, Bytes, codes, int32, ℤ}
use ileap_go.Odata.Parse.{parse_filter}
use ileap_go.Service.{Result, ListResponse, Service}
use ileap_go.Server.Http.{Request, Response}
use ileap_go.Server.Writer.{Format, send}
use ileap_go.Server.Auth.{AuthHandler, Clock}
use ileap_go.Server.Events.{Codec}
use ileap_go.Server.Routes.{footprints_route, tads_route}
use ileap_go.Url.{parse_query}
use ileap_go.Client.Requests.Queries.{asked}
use ileap_go.Client.Http.{HttpRequest, answered, received, Transport}
use ileap_go.Client.Requests.{Net, Json, get_user_agent, ListFootprintsParams, list_footprints}
use ileap_go.Client.Requests.Served.{Agrees}

-- The request that the client sends for a URL and a query.
abbrev pub client_request : Net → Bytes → Bytes → HttpRequest
client_request net url query = record {
  method = codes "GET";
  url = url;
  raw_query = query;
  authorization = [];
  content_type = [];
  user_agent = get_user_agent net;
  content = [];
}

-- The client's requests of this path reach the server behind `respond`, with the query as it is read
-- there.
pub record Reaches {A : Type 0} (net : Net) (transport : Transport) (base_url path url : Bytes)
    (header : Bytes) (format : Format A) (status_text : ℕ → Bytes) (site : Bytes)
    (respond : Bytes → Request → Response A) : Type 0 where
  pub joined : net.join_path base_url path ≡ some url
  pub is_valid : net.is_valid_url url ≡ true
  pub answers :
      (query : Bytes)
      → transport (client_request net url query)
        ≡ answered (
            received status_text (
              send format (respond header (record { base_url = site; query = parse_query query }))))

module _ {Footprint Tad Token Config Keys : Type 0} (auth : AuthHandler Token Config Keys)
    (clock : Clock) (codec : Codec) (service : Service Footprint Tad) (net : Net) (json : Json)
    (transport : Transport) (base_url url header site : Bytes) (status_text : ℕ → Bytes) where
  module _ (unmarshal : Bytes → Option Footprint) (format : Format Footprint)
      (text : Footprint → Bytes) (agrees : Agrees net json unmarshal format text)
      (reaches : Reaches net transport base_url
        (codes "/2/footprints")
        url
        header
        format
        status_text
        site
        (footprints_route auth clock codec service)) where
    -- The call that `ListFootprints` makes.
    abbrev footprints_call : ListFootprintsParams → Result (ListResponse Footprint)
    footprints_call params = service.list_footprints (record {
      limit = int32 (asked params.limit);
      offset = int32 0;
      filters = parse_filter params.filter;
    })

  module _ (unmarshal : Bytes → Option Tad) (format : Format Tad) (text : Tad → Bytes)
      (agrees : Agrees net json unmarshal format text)
      (reaches : Reaches net transport base_url
        (codes "/2/ileap/tad")
        url
        header
        format
        status_text
        site
        (tads_route auth clock codec service)) where
    -- The call that `ListTADs` makes.
    abbrev tads_call : ℤ → Result (ListResponse Tad)
    tads_call limit =
        service.list_transport_activity_data
          (record { limit = int32 (asked limit); offset = int32 0; filters = [] })
