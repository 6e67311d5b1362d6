-- ===== src/Server/AuthTests.antt =====
-- Instances of the theorems about authentication, tokens and events of the server.
use ileap_go.Common.{
  List, trim_right, [], ◌∷◌, ◌≡◌, refl, ◌↔◌, ◌⊎◌, inl, inr, none, some, arith, if◌then◌else◌, All,
  Bytes, codes, bytes_eq, pos,
}
use ileap_go.Service.{permission_denied, unauthenticated, ok, err}
use ileap_go.Server.Http.{Values, Request, Response}
use ileap_go.Server.Auth.{
  AuthHandler, number, Clock, admitted, pact_gate, ileap_gate, check_bearer, pact_verdict,
}
use ileap_go.Server.Auth.Admission.{Bears, Validates, expired_answer, pact_gate_iff}
use ileap_go.Server.Auth.Expired.{SaysExpired, ileap_gate_admits_iff, ileap_gate_expires_iff}
use ileap_go.Server.Token.{
  TokenRequest, write_json, write_token, unescaped_or_raw, auth_token, jwks,
}
use ileap_go.Server.Token.Escaped.{query_escape, IsByte}
use ileap_go.Server.Token.Issued.{Credentials, auth_token-query_escape, auth_token_iff}
use ileap_go.Demo.Match.{ProductFootprint, Tad}
use ileap_go.Demo.Handler.{demo_service, find_footprint}
use ileap_go.Demo.Tests.{ascii, shop}
use ileap_go.Server.Routes.{footprint_route}
use ileap_go.Server.Build.{
  ServerOption, with_service_handler, with_auth_handler, with_path_prefix, path_prefix, new_server,
  apply_server_option, apply_server_options, no_settings, set_defaults,
}
use ileap_go.Server.Build.Bare.{IsPrefix, IsClosed, new_server-IsPrefix, new_server-IsClosed}
use ileap_go.Server.Routes.Guarded.{Authorized, routes-Authorized}
use ileap_go.Server.Events.{Event, Codec, EventRequest, events}
use ileap_go.Server.Events.Accepted.{IsValid, Carries, accepted_answer, events_iff}

-- A handler that knows one user and one token.
abbrev keeper : AuthHandler Bytes Bytes Bytes
keeper = record {
  issue_token = λ name password.
      if bytes_eq password (codes "a b&c")
      then ok name
      else err permission_denied (codes "invalid credentials");
  validate_token = λ token.
      if bytes_eq token (codes "good")
      then ok (record { subject = codes "me" })
      else err unauthenticated (codes "expired");
  open_id_configuration = λ base. some base;
  jwks = none;
}

abbrev clock : Clock
clock = record {
  now = pos 100;
  decode_raw_url = λ part. some part;
  unmarshal_claims = λ bytes. some ((codes "exp", number (pos 99)) ∷ []);
}

pact_gate_iff_example : (pact_gate keeper (codes "Bearer good") ≡ admitted (codes "good")) ↔ (
    Bears (codes "Bearer good") (codes "good") × Validates (keeper.validate_token (codes "good")))
pact_gate_iff_example = pact_gate_iff keeper (codes "Bearer good") (codes "good")

ileap_gate_admits_iff_example :
    (ileap_gate keeper clock (codes "Bearer good") ≡ admitted (codes "good")) ↔ (
      Bears (codes "Bearer good") (codes "good")
      × ((¬ SaysExpired clock (codes "good")) × Validates (keeper.validate_token (codes "good"))))
ileap_gate_admits_iff_example =
    ileap_gate_admits_iff keeper clock (codes "Bearer good") (codes "good")

ileap_gate_expires_iff_example :
    (ileap_gate keeper clock (codes "Bearer a.b.c") ≡ expired_answer) ↔ (
      (token : Bytes) × Bears (codes "Bearer a.b.c") token
      × (SaysExpired clock token
          ⊎ ((m : Bytes) × (keeper.validate_token token ≡ err unauthenticated m))))
ileap_gate_expires_iff_example = ileap_gate_expires_iff keeper clock (codes "Bearer a.b.c")

abbrev token_form : Values
token_form = (codes "grant_type", codes "client_credentials" ∷ []) ∷ []

abbrev token_request : TokenRequest
token_request = record {
  content_type = codes "application/x-www-form-urlencoded";
  form = some token_form;
  basic_auth = some (query_escape (codes "me"), query_escape (codes "a b&c"));
}

token_request-Credentials :
    Credentials token_request (query_escape (codes "me")) (query_escape (codes "a b&c"))
unfolding auth_token ileap_go.Server.Http.get
token_request-Credentials = record {
  form = token_form;
  is_form = refl;
  parsed = refl;
  grant_type = refl;
  basic_auth = refl;
}

name_bytes : All IsByte (codes "me")
name_bytes = (omega arith, (omega arith, tt))

password_bytes : All IsByte (codes "a b&c")
password_bytes = (omega arith, (omega arith, (omega arith, (omega arith, (omega arith, tt)))))

auth_token-query_escape_example :
    auth_token keeper token_request ≡ write_token (keeper.issue_token (codes "me") (codes "a b&c"))
auth_token-query_escape_example =
    auth_token-query_escape keeper token_request (codes "me") (codes "a b&c") name_bytes
      password_bytes token_request-Credentials

auth_token_iff_example : (auth_token keeper token_request ≡ write_json (codes "me")) ↔ (
    (username : Bytes) × (password : Bytes) × Credentials token_request username password
    × (keeper.issue_token (unescaped_or_raw username) (unescaped_or_raw password)
        ≡ ok (codes "me")))
auth_token_iff_example = auth_token_iff keeper token_request (codes "me")

-- A codec that takes every body for the same event.
abbrev published : Event
published = record {
  event_type = codes "org.wbcsd.pathfinder.ProductFootprint.Published.v1";
  specversion = codes "1.0";
  id = codes "1";
  source = codes "me";
  event_data = codes "{}";
}

abbrev codec : Codec
codec = record {
  parse_media_type = λ header. some header;
  unmarshal_envelope = λ body. some published;
  unmarshal_string = λ raw. none;
  compact = λ raw. some raw;
  unmarshal_pf_ids = λ raw. some (codes "3fa85f64-5717-4562-b3fc-2c963f66afa6" ∷ []);
  decode_std = λ s. none;
  decode_raw_std = λ s. none;
  decode_url = λ s. none;
  decode_raw_url = λ s. none;
}

abbrev publication : EventRequest
publication = record { content_type = codes "application/json"; body = some (codes "{}") }

publication-accepted : events codec {A = Bytes} publication ≡ accepted_answer codec
unfolding events
publication-accepted = refl

events_iff_example :
    (events codec {A = Bytes} publication ≡ accepted_answer codec)
    ↔ ((event : Event) × Carries codec publication event × IsValid codec event)
events_iff_example = events_iff codec publication

abbrev all_footprints : Request
all_footprints = record { base_url = codes "https://h"; query = [] }

bread_sent :
    (footprint_route keeper clock codec
      (demo_service ascii shop)
      (codes "Bearer good")
      (codes "b")).status
    ≡ 200
unfolding footprint_route check_bearer pact_verdict demo_service find_footprint
bread_sent = refl

routes-Authorized_example : Authorized keeper (codes "Bearer good")
routes-Authorized_example =
    routes-Authorized keeper clock codec (demo_service ascii shop) (codes "Bearer good")
      all_footprints (codes "b") publication (inr (inl bread_sent))

-- A server whose authentication handler is taken away again, and whose prefix is written otherwise.
abbrev options : List (ServerOption ProductFootprint Tad Bytes Bytes Bytes)
options =
    with_auth_handler (some keeper)
    ∷ with_path_prefix (codes "ileap//")
    ∷ with_auth_handler none
    ∷ with_service_handler (some (demo_service ascii shop))
    ∷ []

prefix_normal : (new_server options).path_prefix ≡ codes "/ileap"
unfolding new_server apply_server_option set_defaults path_prefix trim_right
prefix_normal = refl

new_server-IsPrefix_example :
    IsPrefix (new_server options).path_prefix
    × (path_prefix (new_server options).path_prefix ≡ (new_server options).path_prefix)
new_server-IsPrefix_example = new_server-IsPrefix options

no_auth : (apply_server_options options no_settings).auth ≡ none
unfolding apply_server_option
no_auth = refl

new_server-IsClosed_example :
    IsClosed
      (new_server options).auth
      clock
      codec
      (new_server options).service
      (codes "Bearer good")
      (codes "b")
      (codes "https://h")
      all_footprints
      publication
      token_request
new_server-IsClosed_example =
    new_server-IsClosed options clock codec no_auth (codes "Bearer good") (codes "b")
      (codes "https://h") all_footprints publication token_request
