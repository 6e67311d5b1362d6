-- ===== src/Conformance/Demo.antt =====
-- The demo server as ileaptest/conformance.go meets it: the routes of server.go over the demo handler
-- and its authentication (handlers/ileapdemo), at one instant.
use ileap_go.Common.{
  ℕ, Bool, false, not, ◌&&◌, all, if◌then◌else◌, bytes_eq, List, [], ◌∷◌, ◌++◌, Option, none, some,
  Bytes, codes,
}
use ileap_go.Service.{Service}
use ileap_go.Server.Http.{error_not_found, Request, Response, write_error}
use ileap_go.Server.Auth.{AuthHandler, Clock, strip_prefix}
use ileap_go.Server.Events.{Codec}
use ileap_go.Server.Routes.{footprints_route, footprint_route, tads_route, events_route}
use ileap_go.Server.Token.{TokenRequest, auth_token, open_id_config}
use ileap_go.Server.Token.Escaped.{is_unreserved}
use ileap_go.Url.{parse_query}
use ileap_go.Demo.Match.{Runtime, ProductFootprint, Tad}
use ileap_go.Demo.Handler.{Handler, demo_service}
use ileap_go.Demo.Auth.{Signing, Bearer}
use ileap_go.Demo.Provider.{OpenIdConfiguration, JsonWebKey, auth_provider}
use ileap_go.Conformance.Checks.{Site}

-- What the demo server is made of, and the URL that it is reached by.
pub record Setup : Type 0 where
  pub signing : Signing
  pub modulus : Bytes
  pub exponent : Bytes
  pub now : ℕ
  pub clock : Clock
  pub codec : Codec
  pub runtime : Runtime
  pub handler : Handler
  pub base_url : Bytes

-- The header `Authorization` for a token, if there is one.
abbrev pub bearer : Bytes → Bytes
bearer [] = []
bearer (c ∷ cs) = codes "Bearer " ++ (c ∷ cs)

abbrev pub token_request : Bytes → Bytes → TokenRequest
token_request username password = record {
  content_type = codes "application/x-www-form-urlencoded";
  form = some (parse_query (codes "grant_type=client_credentials"));
  basic_auth = some (username, password);
}

-- Stands for what is answered to a URL that the site itself does not give, or to a path with a
-- segment that is not read as it stands: which route the mux of net/http chooses for it is not
-- modelled, and no test passes on this page.
abbrev not_found : {A : Type 0} → Response A
not_found = write_error 404 error_not_found (codes "404 page not found")

abbrev pub or_not_found : {A B : Type 0} → (B → Response A) → Option B → Response A
or_not_found answer none = not_found
or_not_found answer (some rest) = answer rest

-- A text that a segment of a URL's path reads as it stands: it is not empty, has only letters, digits
-- and `-`, `_`, `.` and `~`, and is none of the two segments that the mux of net/http removes.
abbrev pub is_segment : Bytes → Bool
is_segment [] = false
is_segment (c ∷ cs) =
    all is_unreserved (c ∷ cs)
    && not (bytes_eq (c ∷ cs) (codes "."))
    && not (bytes_eq (c ∷ cs) (codes ".."))

abbrev pub segment : Option Bytes → Option Bytes
segment none = none
segment (some text) = if is_segment text then some text else none

module _ (setup : Setup) where
  abbrev pub auth : AuthHandler Bearer OpenIdConfiguration (List JsonWebKey)
  auth = auth_provider setup.signing setup.modulus setup.exponent setup.now

  abbrev pub service : Service ProductFootprint Tad
  service = demo_service setup.runtime setup.handler

  abbrev pub request : Bytes → Request
  request raw_query = record { base_url = setup.base_url; query = parse_query raw_query }

  abbrev pub get_footprints : Bytes → Bytes → Response ProductFootprint
  get_footprints raw_query token =
      footprints_route auth setup.clock setup.codec service (bearer token) (request raw_query)

  abbrev pub sign_in : Bytes → Bytes → Response Bearer
  sign_in username password = auth_token auth (token_request username password)

  -- A `POST` to any path of the site that no other route has is served by `authToken`.
  unfoldable pub demo_site : Site
  unfolding strip_prefix bytes_eq
  demo_site = record {
    post_auth_token = sign_in;
    post_token_at = λ url username password.
        or_not_found (λ path. sign_in username password)
          (strip_prefix (setup.base_url ++ codes "/") url);
    get_openid_configuration = open_id_config auth setup.base_url;
    get_footprints = get_footprints;
    get_footprints_at = λ url token.
        or_not_found (λ raw_query. get_footprints raw_query token)
          (strip_prefix (setup.base_url ++ codes "/2/footprints?") url);
    get_footprint_at = λ path token.
        or_not_found (λ id. footprint_route auth setup.clock setup.codec service (bearer token) id)
          (segment (strip_prefix (codes "/2/footprints/") path));
    get_tads = λ raw_query token.
        tads_route auth setup.clock setup.codec service (bearer token) (request raw_query);
    post_event = λ token body.
        events_route auth setup.clock setup.codec service (bearer token) (record {
          content_type = codes "application/cloudevents+json; charset=UTF-8";
          body = some body;
        });
  }
