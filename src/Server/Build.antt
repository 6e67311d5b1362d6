-- ===== src/Server/Build.antt =====
-- server.go, `NewServer` with its options, server_unimplemented.go, and the service of the generated
-- code that implements nothing.
pub mod Bare
use ileap_go.Common.{
  ℕ, Bool, true, false, List, [], ◌∷◌, ◌==◌, if◌then◌else◌, ◌≡◌, refl, Option, none, some, Bytes,
  codes, trim_right,
}
use ileap_go.Service.{unimplemented, Result, err, Service}
use ileap_go.Server.Auth.{AuthHandler}

-- The fields of a `Server` that the options set; a handler that is `nil` is `none`.
pub record Settings (Footprint Tad Token Config Keys : Type 0) : Type 0 where
  pub service : Option (Service Footprint Tad)
  pub auth : Option (AuthHandler Token Config Keys)
  pub path_prefix : Bytes

-- A `Server`, without its mux.
pub record Server (Footprint Tad Token Config Keys : Type 0) : Type 0 where
  pub service : Service Footprint Tad
  pub auth : AuthHandler Token Config Keys
  pub path_prefix : Bytes

pub data ServerOption (Footprint Tad Token Config Keys : Type 0) : Type 0 where
  with_service_handler :
      Option (Service Footprint Tad) → ServerOption Footprint Tad Token Config Keys
  with_auth_handler :
      Option (AuthHandler Token Config Keys) → ServerOption Footprint Tad Token Config Keys
  with_path_prefix : Bytes → ServerOption Footprint Tad Token Config Keys

abbrev pub slashed : Bytes → Bytes
slashed [] = b'/' ∷ []
slashed (c ∷ p) = if c == b'/' then c ∷ p else b'/' ∷ c ∷ p

-- What `WithPathPrefix` makes of a prefix.
unfoldable pub path_prefix : Bytes → Bytes
unfolding trim_right
path_prefix [] = []
path_prefix (c ∷ p) = trim_right b'/' (slashed (c ∷ p))

-- `UnimplementedILeapServiceHandler`
abbrev pub unimplemented_service : {Footprint Tad : Type 0} → Service Footprint Tad
unimplemented_service = record {
  list_footprints = λ r. err unimplemented (
      codes
        "unimplemented: wayplatform.connect.ileap.v1.ILeapService.ListFootprints is not implemented");
  get_footprint = λ id. err unimplemented (
      codes
        "unimplemented: wayplatform.connect.ileap.v1.ILeapService.GetFootprint is not implemented");
  list_transport_activity_data = λ r. err unimplemented (
      codes
        "unimplemented: wayplatform.connect.ileap.v1.ILeapService.ListTransportActivityData is not implemented");
}

abbrev pub unimplemented_auth_handler : {Token Config Keys : Type 0} → AuthHandler Token Config Keys
unimplemented_auth_handler = record {
  issue_token =
      λ id secret. err unimplemented (codes "unimplemented: token issuance not implemented");
  validate_token =
      λ token. err unimplemented (codes "unimplemented: token validation not implemented");
  open_id_configuration = λ base_url. none;
  jwks = none;
}

abbrev pub or_default : {A : Type 0} → A → Option A → A
or_default default none = default
or_default default (some v) = v

module _ {Footprint Tad Token Config Keys : Type 0} where
  unfoldable pub apply_server_option :
      ServerOption Footprint Tad Token Config Keys
      → Settings Footprint Tad Token Config Keys
      → Settings Footprint Tad Token Config Keys
  unfolding path_prefix
  apply_server_option (with_service_handler h) s = record {
    service = h;
    auth = s.auth;
    path_prefix = s.path_prefix;
  }
  apply_server_option (with_auth_handler a) s = record {
    service = s.service;
    auth = a;
    path_prefix = s.path_prefix;
  }
  apply_server_option (with_path_prefix p) s = record {
    service = s.service;
    auth = s.auth;
    path_prefix = path_prefix p;
  }

  abbrev pub apply_server_options :
      List (ServerOption Footprint Tad Token Config Keys)
      → Settings Footprint Tad Token Config Keys
      → Settings Footprint Tad Token Config Keys
  apply_server_options [] s = s
  apply_server_options (o ∷ options) s = apply_server_options options (apply_server_option o s)

  unfoldable pub set_defaults :
      Settings Footprint Tad Token Config Keys → Server Footprint Tad Token Config Keys
  set_defaults s = record {
    service = or_default unimplemented_service s.service;
    auth = or_default unimplemented_auth_handler s.auth;
    path_prefix = s.path_prefix;
  }

  abbrev pub no_settings : Settings Footprint Tad Token Config Keys
  no_settings = record { service = none; auth = none; path_prefix = [] }

  unfoldable pub new_server :
      List (ServerOption Footprint Tad Token Config Keys) → Server Footprint Tad Token Config Keys
  unfolding apply_server_option set_defaults
  new_server options = set_defaults (apply_server_options options no_settings)
