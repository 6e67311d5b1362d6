-- ===== src/Client/Config.antt =====
-- client_config.go, `NewClient` of client.go, interceptor.go and debug.go: the options of a client, and
-- the transport that it is given. An option changes the configuration; the `auth` of `WithOAuth2`
-- reads the base URL when the transport is made, so it is given the final one.
use ileap_go.Common.{
  Bool, false, List, [], ◌∷◌, ◌++◌, Option, none, some, if◌then◌else◌, Bytes, codes, ℤ, pos, ltb_ℤ,
}
use ileap_go.Client.Http.{HttpRequest, HttpResponse, Sent, failed, answered, Transport}

abbrev pub Interceptor : Type 0
Interceptor = Transport → Transport

-- `ClientConfig`; `auth` is given the base URL that the pointer to the configuration leads to.
pub record ClientConfig : Type 0 where
  pub base_url : Bytes
  pub retry_count : ℤ
  pub debug : Bool
  pub interceptors : List Interceptor
  pub auth : Option (Bytes → Interceptor)

unfoldable pub new_client_config : ClientConfig
new_client_config = record {
  base_url = [];
  retry_count = pos 0;
  debug = false;
  interceptors = [];
  auth = none;
}

-- What the code takes from the packages `http`, `httputil` and `oauth2`: whether a dump succeeds, and
-- the transports for client credentials and for a token that is given. `retry_transport` is that of
-- retry.go.
pub record Layers (Token : Type 0) : Type 0 where
  pub default_transport : Transport
  pub dump_request_out : HttpRequest → Bool
  pub dump_response : HttpResponse → Bool
  pub client_credentials : Bytes → Bytes → Bytes → Interceptor
  pub static_token : Token → Interceptor
  pub retry_transport : ℤ → Interceptor

-- `ClientOption`, by the function that makes it.
pub data ClientOption (Token : Type 0) : Type 0 where
  with_base_url : Bytes → ClientOption Token
  with_oauth2 : Bytes → Bytes → ClientOption Token
  with_reuse_token_auth : Token → ClientOption Token
  with_retry_count : ℤ → ClientOption Token
  with_debug : Bool → ClientOption Token
  with_interceptor : Interceptor → ClientOption Token

module _ {Token : Type 0} (layers : Layers Token) where
  unfoldable pub apply_option : ClientConfig → ClientOption Token → ClientConfig
  apply_option config (with_base_url base_url) = record config { base_url = base_url }
  apply_option config (with_oauth2 client_id client_secret) = record config {
    auth = some (λ base_url.
        layers.client_credentials client_id client_secret (base_url ++ codes "/auth/token"));
  }
  apply_option config (with_reuse_token_auth token) = record config {
    auth = some (λ base_url. layers.static_token token);
  }
  apply_option config (with_retry_count retry_count) = record config { retry_count = retry_count }
  apply_option config (with_debug debug) = record config { debug = debug }
  apply_option config (with_interceptor interceptor) = record config {
    interceptors = config.interceptors ++ interceptor ∷ [];
  }

  unfoldable pub apply_options : ClientConfig → List (ClientOption Token) → ClientConfig
  unfolding apply_option
  apply_options config [] = config
  apply_options config (opt ∷ opts) = apply_options (apply_option config opt) opts

  abbrev dumped : Sent → Sent
  dumped failed = failed
  dumped (answered response) = if layers.dump_response response then answered response else failed

  -- `debugTransport.RoundTrip`
  unfoldable pub debug_transport : Interceptor
  debug_transport next request =
      if layers.dump_request_out request then dumped (next request) else failed

  -- The loop of `interceptorTransport.RoundTrip`: the last interceptor is the outermost.
  unfoldable pub interceptor_transport : List Interceptor → Interceptor
  interceptor_transport [] next = next
  interceptor_transport (interceptor ∷ interceptors) next =
      interceptor_transport interceptors (interceptor next)

  abbrev with_auth : ClientConfig → Option (Bytes → Interceptor) → Interceptor
  with_auth config none next = next
  with_auth config (some auth) next = auth config.base_url next

  abbrev with_interceptors : List Interceptor → Interceptor
  with_interceptors [] next = next
  with_interceptors (i ∷ is) next = interceptor_transport (i ∷ is) next

  -- The transport that `NewClient` makes of a configuration.
  unfoldable pub transport_of : ClientConfig → Transport
  unfolding debug_transport interceptor_transport
  transport_of config =
      let debugged =
        if config.debug
        then debug_transport layers.default_transport
        else layers.default_transport in
      let intercepted =
        with_interceptors config.interceptors (with_auth config config.auth debugged) in
      if ltb_ℤ (pos 0) config.retry_count
      then layers.retry_transport config.retry_count intercepted
      else intercepted

  -- `NewClient`: the configuration and the transport of the client.
  unfoldable pub new_client : List (ClientOption Token) → ClientConfig × Transport
  unfolding apply_options transport_of new_client_config
  new_client opts =
      let config = apply_options new_client_config opts in (config, transport_of config)
