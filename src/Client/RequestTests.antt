-- ===== src/Client/RequestTests.antt =====
-- Instances of the theorems about the client's requests: footprints and TADs are Booleans, and stand in
-- JSON as the digits 0 and 1.
use ileap_go.Common.{
  ℕ, Bool, true, false, ◌||◌, List, [], ◌∷◌, ◌++◌, ◌≡◌, refl, none, some, arith, if◌then◌else◌,
  ◌==◌, map, select, Option, Bytes, codes, join, pos, length,
}
use ileap_go.Service.{invalid_argument, Result, ok, err, ListResponse, Service}
use ileap_go.Server.Http.{
  ErrorCode, bad_request, access_denied, token_expired, error_not_found, internal_error,
  error_not_implemented, no_such_footprint,
}
use ileap_go.Server.Auth.{AuthHandler, Clock}
use ileap_go.Server.Events.{Codec}
use ileap_go.Server.Routes.{footprints_route, tads_route}
use ileap_go.Server.Writer.{Format, send, write_list_response, new_writer}
use ileap_go.Server.Writer.Written.{write_list_response-join, write_list_response-none}
use ileap_go.Client.Http.{Transport, answered, received}
use ileap_go.Client.Requests.{ErrorBody, Net, Json, ListFootprintsParams, list_footprints}
use ileap_go.Url.{parse_query}

abbrev digit : Bool → Bytes
digit true = codes "1"
digit false = codes "0"

abbrev is_bit : ℕ → Bool
is_bit c = c == b'0' || c == b'1'

abbrev error_number : ErrorCode → ℕ
error_number bad_request = 0
error_number access_denied = 1
error_number token_expired = 2
error_number error_not_found = 3
error_number internal_error = 4
error_number error_not_implemented = 5
error_number no_such_footprint = 6

abbrev numbered : ℕ → Bytes
numbered n =
    if n == 0
    then codes "BadRequest"
    else if n == 1
    then codes "AccessDenied"
    else if n == 2
    then codes "TokenExpired"
    else if n == 3
    then codes "NotFound"
    else if n == 4
    then codes "InternalError"
    else if n == 5
    then codes "NotImplemented"
    else codes "NoSuchFootprint"

abbrev read_error : Bytes → ErrorBody
read_error [] = record { code = []; message = [] }
read_error (c ∷ message) = record { code = numbered c; message = message }

abbrev json : Json
json = record {
  unmarshal_list = λ body. some (map (λ c. c ∷ []) (select is_bit body));
  unmarshal_item = λ body. some body;
  unmarshal_error = read_error;
}

abbrev net : Net
net = record {
  join_path = λ base path. some (base ++ path);
  is_valid_url = λ url. true;
  parse_media_type = λ text. some text;
  main_version = none;
}

abbrev format : Format Bool
format = record {
  marshal = λ x. some (digit x);
  encode_error = λ error message. error_number error ∷ message;
  encode_oauth_error = λ error description. description;
  encode_json = digit;
  taken = λ before data_bytes. length data_bytes;
}

abbrev unmarshal : Bytes → Option Bool
unmarshal [] = none
unmarshal (c ∷ cs) = some (c == b'1')

abbrev auth : AuthHandler Bytes Bytes Bytes
auth = record {
  issue_token = λ name password. ok name;
  validate_token = λ token. ok (record { subject = codes "me" });
  open_id_configuration = λ base. some base;
  jwks = none;
}

abbrev clock : Clock
clock = record { now = pos 100; decode_raw_url = λ part. none; unmarshal_claims = λ bytes. none }

abbrev codec : Codec
codec = record {
  parse_media_type = λ text. some text;
  unmarshal_envelope = λ body. none;
  unmarshal_string = λ text. none;
  compact = λ text. none;
  unmarshal_pf_ids = λ text. none;
  decode_std = λ text. none;
  decode_raw_std = λ text. none;
  decode_url = λ text. none;
  decode_raw_url = λ text. none;
}

-- A service that has two items, and refuses filters.
abbrev answer : {A : Type 0} → List A → Result (ListResponse Bool)
answer [] = ok (record { items = true ∷ false ∷ []; total = pos 2 })
answer (f ∷ fs) = err invalid_argument (codes "no filters")

abbrev service : Service Bool Bool
service = record {
  list_footprints = λ r. answer r.filters;
  get_footprint = λ id. ok true;
  list_transport_activity_data = λ r. answer r.filters;
}

-- The server at the other end of the connection.
abbrev header : Bytes
header = codes "Bearer good"

abbrev status_text : ℕ → Bytes
status_text n = codes "status"

abbrev to_footprints : Transport
to_footprints request = answered (
    received status_text (
      send format (
        footprints_route auth clock codec service header
          (record { base_url = codes "here"; query = parse_query request.raw_query }))))

abbrev to_tads : Transport
to_tads request = answered (
    received status_text (
      send format (
        tads_route auth clock codec service header
          (record { base_url = codes "here"; query = parse_query request.raw_query }))))

abbrev asked_for : ListFootprintsParams
asked_for = record { limit = pos 2; filter = codes "id eq 'x'" }

write_list_response-join_example :
    write_list_response format (true ∷ false ∷ []) new_writer
    ≡ record { status = some 200; written = codes "{\"data\":[1,0]}" }
unfolding join
write_list_response-join_example =
    write_list_response-join format (λ before data_bytes. ground arith) digit (true ∷ false ∷ [])
      (refl, (refl, tt))

-- A format in which no text stands for `false`.
abbrev partial : Format Bool
partial = record format { marshal = λ x. if x then some (codes "1") else none }

write_list_response-none_example :
    write_list_response partial (true ∷ false ∷ []) new_writer
    ≡ record { status = some 200; written = codes "{\"data\":[1," ++ (4 ∷ codes "internal error") }
write_list_response-none_example =
    write_list_response-none partial (λ before data_bytes. ground arith) digit (true ∷ []) [] false
      (refl, tt) refl
