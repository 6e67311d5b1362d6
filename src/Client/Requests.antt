-- ===== src/Client/Requests.antt =====
-- client.go, client_footprint_list.go, client_footprint_get.go, client_tad_list.go and error.go: the
-- requests of the client, and what it makes of the responses. The texts that `fmt.Errorf` puts
-- around an error are left out.
pub mod Queries
pub mod Served
pub mod Remote
use ileap_go.Common.{
  ℕ, Bool, true, false, List, [], ◌∷◌, ◌++◌, Option, none, some, ◌==◌, if◌then◌else◌, Bytes, codes,
  bytes_eq, ℤ, pos, ltb_ℤ, itoa,
}
use ileap_go.Server.Http.{Values}
use ileap_go.Url.{encode, set}
use ileap_go.Client.Http.{HttpRequest, HttpResponse, Sent, failed, answered, Transport}

-- `Error`, the body of an error response.
pub record ErrorBody : Type 0 where
  pub code : Bytes
  pub message : Bytes

-- `ClientError`
pub record ClientError : Type 0 where
  pub method : Bytes
  pub url : Bytes
  pub status : Bytes
  pub status_code : ℕ
  pub body : ErrorBody

-- What a call of the client returns: a value, or one of its errors.
pub data Fetched (A : Type 0) : Type 0 where
  fetched : A → Fetched A
  no_request : Fetched A
  not_sent : Fetched A
  client_failed : ClientError → Fetched A
  malformed : Fetched A

-- `ListFootprintsParams`
pub record ListFootprintsParams : Type 0 where
  pub limit : ℤ
  pub filter : Bytes

-- What the code takes from the packages `url`, `mime`, `debug` and `http`.
pub record Net : Type 0 where
  pub join_path : Bytes → Bytes → Option Bytes
  pub is_valid_url : Bytes → Bool
  pub parse_media_type : Bytes → Option Bytes
  pub main_version : Option Bytes

-- What it takes from `encoding/json`: `data` as raw messages, and an error body, which is what is
-- read before the first fault.
pub record Json : Type 0 where
  pub unmarshal_list : Bytes → Option (List Bytes)
  pub unmarshal_item : Bytes → Option Bytes
  pub unmarshal_error : Bytes → ErrorBody

module _ (net : Net) where
  abbrev user_agent_of : Option Bytes → Bytes
  user_agent_of none = codes "WayPlatformiLeapGo"
  user_agent_of (some []) = codes "WayPlatformiLeapGo"
  user_agent_of (some (c ∷ cs)) = codes "WayPlatformiLeapGo" ++ (codes "/" ++ (c ∷ cs))

  -- `getUserAgent`
  unfoldable pub get_user_agent : Bytes
  get_user_agent = user_agent_of net.main_version

  -- `newRequest`, for a request without a body.
  unfoldable pub new_request : Bytes → Bytes → Bytes → Option HttpRequest
  new_request base_url method request_path = elim (net.join_path base_url request_path) [
    | none ↦ none
    | some url ↦
        if net.is_valid_url url
        then some (record {
          method = method;
          url = url;
          raw_query = [];
          authorization = [];
          content_type = [];
          user_agent = get_user_agent;
          content = [];
        })
        else none
  ]

  abbrev no_error_body : ErrorBody
  no_error_body = record { code = []; message = [] }

  abbrev json_error : Json → Bytes → Option Bytes → ErrorBody
  json_error json text none = no_error_body
  json_error json text (some media_type) =
      if bytes_eq media_type (codes "application/json")
      then json.unmarshal_error text
      else no_error_body

  abbrev error_body : Json → Bytes → Option Bytes → ErrorBody
  error_body json content_type none = no_error_body
  error_body json content_type (some text) =
      json_error json text (net.parse_media_type content_type)

  -- `URL.String`
  abbrev pub request_url : Bytes → Bytes → Bytes
  request_url url [] = url
  request_url url (c ∷ cs) = url ++ (codes "?" ++ (c ∷ cs))

  -- `newClientError`
  unfoldable pub new_client_error : Json → HttpRequest → HttpResponse → ClientError
  new_client_error json request response = record {
    method = request.method;
    url = request_url request.url request.raw_query;
    status = response.status;
    status_code = response.status_code;
    body = error_body json response.content_type response.body;
  }

  abbrev pub read_then : {A : Type 0} → (Bytes → Fetched A) → Option Bytes → Fetched A
  read_then read none = malformed
  read_then read (some text) = read text

  -- What follows `Do`, up to the body of a response with the status 200.
  unfoldable pub read_response :
      {A : Type 0} → Json → (Bytes → Fetched A) → HttpRequest → Sent → Fetched A
  read_response json read request failed = not_sent
  read_response json read request (answered response) =
      if response.status_code == 200
      then read_then read response.body
      else client_failed (new_client_error json request response)

  abbrev pub fetch :
      {A : Type 0} → Json → (Bytes → Fetched A) → Transport → Bytes → Option HttpRequest → Fetched A
  fetch json read send raw_query none = no_request
  fetch json read send raw_query (some request) =
      let query = record request { raw_query = raw_query } in
      read_response json read query (send query)

-- The loop over the raw messages.
unfoldable pub unmarshal_items :
    {A : Type 0} → (Bytes → Option A) → List A → List Bytes → Fetched (List A)
unmarshal_items unmarshal items [] = fetched items
unmarshal_items unmarshal items (raw ∷ raws) = elim (unmarshal raw) [
  | none ↦ malformed
  | some item ↦ unmarshal_items unmarshal (items ++ item ∷ []) raws
]

abbrev pub read_raws : {A : Type 0} → (Bytes → Option A) → Option (List Bytes) → Fetched (List A)
read_raws unmarshal none = malformed
read_raws unmarshal (some raws) = unmarshal_items unmarshal [] raws

abbrev pub read_item : {A : Type 0} → (Bytes → Option A) → Option Bytes → Fetched A
read_item unmarshal none = malformed
read_item unmarshal (some raw) = elim (unmarshal raw) [
  | none ↦ malformed
  | some item ↦ fetched item
]

-- `if request.Limit > 0 { query.Set("limit", strconv.Itoa(request.Limit)) }`
abbrev pub set_limit : ℤ → Values → Values
set_limit limit query =
    if ltb_ℤ (pos 0) limit then set (codes "limit") (itoa limit) query else query

abbrev set_filter : Bytes → Values → Values
set_filter [] query = query
set_filter (c ∷ cs) query = set (codes "$filter") (c ∷ cs) query

unfoldable pub footprints_query : ListFootprintsParams → Bytes
unfolding encode set
footprints_query request = encode (set_filter request.filter (set_limit request.limit []))

unfoldable pub tads_query : ℤ → Bytes
unfolding encode set
tads_query limit = encode (set_limit limit [])

module _ (net : Net) (json : Json) (send : Transport) (base_url : Bytes) where
  -- `ListFootprints`; `unmarshal` discards unknown fields.
  unfoldable pub list_footprints :
      {A : Type 0} → (Bytes → Option A) → ListFootprintsParams → Fetched (List A)
  list_footprints unmarshal request =
      fetch net json (λ text. read_raws unmarshal (json.unmarshal_list text)) send
        (footprints_query request) (new_request net base_url (codes "GET") (codes "/2/footprints"))

  -- `ListTADs`
  unfoldable pub list_tads : {A : Type 0} → (Bytes → Option A) → ℤ → Fetched (List A)
  list_tads unmarshal limit =
      fetch net json (λ text. read_raws unmarshal (json.unmarshal_list text)) send
        (tads_query limit) (new_request net base_url (codes "GET") (codes "/2/ileap/tad"))

  -- `GetFootprint`; `unmarshal` refuses unknown fields.
  unfoldable pub get_footprint : {A : Type 0} → (Bytes → Option A) → Bytes → Fetched A
  get_footprint unmarshal id =
      fetch net json (λ text. read_item unmarshal (json.unmarshal_item text)) send []
        (new_request net base_url (codes "GET") (codes "/2/footprints/" ++ id))
