-- ===== src/Server/Build/Bare.antt =====
-- server.go, `NewServer`: its path prefix, and what it serves without an authentication handler.
use ileap_go.Common.{
  Bool-cases, true, false, List, [], ◌∷◌, ◌==◌, ◌≡◌, ◌≢◌, sym, subst, refl, ap, ◌⊎◌, inl, inr, none,
  Bytes, codes, arith, trim_last, trim_right, ends_with, ends_with-trim_right, trim_right_id,
}
use ileap_go.Service.{Service}
use ileap_go.Server.Http.{error_not_implemented, write_error, Request}
use ileap_go.Server.Auth.{AuthHandler, Clock}
use ileap_go.Server.Events.{Codec, EventRequest}
use ileap_go.Server.Token.{TokenRequest, auth_token, write_json, open_id_config, jwks}
use ileap_go.Server.Token.Issued.{auth_token_iff}
use ileap_go.Server.Routes.{footprints_route, footprint_route, tads_route, events_route}
use ileap_go.Server.Routes.Guarded.{Authorized, routes-Authorized}
use ileap_go.Server.Build.{
  Settings, ServerOption, with_service_handler, with_auth_handler, with_path_prefix, path_prefix,
  apply_server_option, apply_server_options, set_defaults, no_settings, new_server,
  unimplemented_auth_handler, or_default,
}

-- A prefix of paths: empty, or with a slash in front and none at the end.
abbrev pub IsPrefix : Bytes → Type 0
IsPrefix p = (p ≡ []) ⊎ (((rest : Bytes) × (p ≡ b'/' ∷ rest)) × (ends_with b'/' p ≡ false))

trimmed-IsPrefix : (s : Bytes) → IsPrefix (trim_right b'/' (b'/' ∷ s))
unfolding trim_right
trimmed-IsPrefix s = by_rest (trim_right b'/' s) (ends_with-trim_right b'/' s)
  where
    by_rest : (r : Bytes) → ends_with b'/' r ≡ false → IsPrefix (trim_last b'/' b'/' r)
    by_rest [] e = inl refl
    by_rest (y ∷ r) e = inr ((y ∷ r, refl), e)

pub path_prefix-IsPrefix : (p : Bytes) → IsPrefix (path_prefix p)
unfolding path_prefix
path_prefix-IsPrefix [] = inl refl
path_prefix-IsPrefix (c ∷ p) = elim (Bool-cases (c == b'/')) [
  | inl e ↦ let slash : c ≡ b'/' = ground arith in rw (e, slash) (trimmed-IsPrefix p)
  | inr e ↦ rw e (trimmed-IsPrefix (c ∷ p))
]

-- A prefix that is one already stays as it is.
pub path_prefix_id : (p : Bytes) → IsPrefix p → path_prefix p ≡ p
unfolding path_prefix
path_prefix_id [] h = refl
path_prefix_id (c ∷ p) (inl e) = absurd (cc e)
path_prefix_id (c ∷ p) (inr ((rest, e), f)) =
    let slash : c ≡ b'/' = cc e in
    let g : (c == b'/') ≡ true = ground arith in rw g (trim_right_id b'/' (c ∷ p) f)

-- No data, no acceptance of an event and no token; the discovery endpoints answer 501.
abbrev pub IsClosed :
    {Footprint Tad Token Config Keys : Type 0}
    → AuthHandler Token Config Keys
    → Clock
    → Codec
    → Service Footprint Tad
    → Bytes
    → Bytes
    → Bytes
    → Request
    → EventRequest
    → TokenRequest
    → Type 0
IsClosed {Footprint} {Tad} {Token} auth clock codec service header id base_url r event form =
    ((footprints_route auth clock codec service header r).status ≢ 200)
    × ((footprint_route auth clock codec service header id).status ≢ 200)
    × ((tads_route auth clock codec service header r).status ≢ 200)
    × ((events_route auth clock codec service {A = Tad} header event).status ≢ 200)
    × ((creds : Token) → auth_token auth form ≢ write_json creds)
    × (open_id_config auth base_url
        ≡ write_error 501 error_not_implemented (codes "not implemented"))
    × (jwks auth ≡ write_error 501 error_not_implemented (codes "not implemented"))

module _ {Footprint Tad Token Config Keys : Type 0} where
  unimplemented-IsClosed :
      (clock : Clock) (codec : Codec) (service : Service Footprint Tad) (header id base_url : Bytes)
      (r : Request) (event : EventRequest) (form : TokenRequest)
      → IsClosed
          (unimplemented_auth_handler {Token = Token} {Config = Config} {Keys = Keys})
          clock
          codec
          service
          header
          id
          base_url
          r
          event
          form
  unfolding open_id_config jwks
  unimplemented-IsClosed clock codec service header id base_url r event form =
      let auth : AuthHandler Token Config Keys = unimplemented_auth_handler in
      let refuses : ¬ Authorized auth header = λ (token, b, (info, v)). absurd (cc v) in
      let guarded = routes-Authorized auth clock codec service header r id event in
      (
        (λ e. refuses (guarded (inl e))),
        (λ e. refuses (guarded (inr (inl e)))),
        (λ e. refuses (guarded (inr (inr (inl e))))),
        (λ e. refuses (guarded (inr (inr (inr e))))),
        (λ creds e.
            let (username, password, h, v) = (auth_token_iff auth form creds).0 e in absurd (cc v)),
        refl,
        refl,
      )

  apply_server_options-IsPrefix :
      (options : List (ServerOption Footprint Tad Token Config Keys))
      (s : Settings Footprint Tad Token Config Keys)
      → IsPrefix s.path_prefix
      → IsPrefix (apply_server_options options s).path_prefix
  unfolding apply_server_option
  apply_server_options-IsPrefix [] s h = h
  apply_server_options-IsPrefix (with_service_handler v ∷ options) s h =
      apply_server_options-IsPrefix options _ h
  apply_server_options-IsPrefix (with_auth_handler a ∷ options) s h =
      apply_server_options-IsPrefix options _ h
  apply_server_options-IsPrefix (with_path_prefix p ∷ options) s h =
      apply_server_options-IsPrefix options _ (path_prefix-IsPrefix p)

  -- Whatever its options, the prefix of a server's paths is empty, or has a slash in front and none
  -- at the end, and `WithPathPrefix` leaves it as it is.
  pub new_server-IsPrefix :
      (options : List (ServerOption Footprint Tad Token Config Keys))
      → IsPrefix (new_server options).path_prefix
        × (path_prefix (new_server options).path_prefix ≡ (new_server options).path_prefix)
  unfolding new_server set_defaults
  new_server-IsPrefix options =
      let h = apply_server_options-IsPrefix options no_settings (inl refl) in
      (h, path_prefix_id _ h)

  -- A server whose options set no authentication handler, or a `nil` at last, sends no data, takes no
  -- event and issues no token, whatever the request, and its discovery endpoints are not implemented.
  pub new_server-IsClosed :
      (options : List (ServerOption Footprint Tad Token Config Keys)) (clock : Clock)
      (codec : Codec)
      → (apply_server_options options no_settings).auth ≡ none
      → (header id base_url : Bytes) (r : Request) (event : EventRequest) (form : TokenRequest)
      → IsClosed
          (new_server options).auth
          clock
          codec
          (new_server options).service
          header
          id
          base_url
          r
          event
          form
  unfolding new_server set_defaults
  new_server-IsClosed options clock codec n header id base_url r event form =
      subst
        (λ auth.
          IsClosed auth clock codec (new_server options).service header id base_url r event form)
        (sym (ap (or_default unimplemented_auth_handler) n))
        (unimplemented-IsClosed clock codec (new_server options).service header id base_url r event
          form)
