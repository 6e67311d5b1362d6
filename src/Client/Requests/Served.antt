-- ===== src/Client/Requests/Served.antt =====
-- client_footprint_list.go and client_tad_list.go over server.go: what a call of the client returns,
-- in the terms of the service behind the server.
use ileap_go.Common.{
  ℕ, true, false, List, [], ◌∷◌, ◌++◌, ◌≡◌, refl, sym, ap, ◌∙◌, Option, some, ◌==◌, map,
  append_assoc, append-nil, All, Bytes, bytes_eq, codes, join, ℤ, is_ascii,
}
use ileap_go.Service.{
  Code, unimplemented, not_found, invalid_argument, permission_denied, unauthenticated,
  resource_exhausted, unavailable, other, Result, ok, err, ListResponse,
}
use ileap_go.Server.Http.{
  ErrorCode, code_text, bad_request, access_denied, internal_error, error_not_implemented,
  no_such_footprint, get, write_handler_error,
}
use ileap_go.Server.Lists.{write_page}
use ileap_go.Server.Writer.{new_writer, Format, send, write_error_body, write_list_response}
use ileap_go.Server.Writer.Written.{IsOpen, write_list_response-join, write_error_body_lem}
use ileap_go.Client.Http.{HttpRequest, answered, received}
use ileap_go.Client.Requests.{
  ErrorBody, Fetched, fetched, client_failed, Net, Json, request_url, new_client_error,
  read_response, read_raws, unmarshal_items,
}

-- The specification: a service's error as the client sees it, its status and its body.
abbrev pub refusal : Code → Bytes → ℕ × ErrorBody
refusal unimplemented text =
    (501, record { code = codes "NotImplemented"; message = codes "not implemented" })
refusal not_found text = (404, record { code = codes "NoSuchFootprint"; message = text })
refusal invalid_argument text = (400, record { code = codes "BadRequest"; message = text })
refusal permission_denied text = (403, record { code = codes "AccessDenied"; message = text })
refusal _ text = (500, record { code = codes "InternalError"; message = codes "internal error" })

abbrev pub refused : {A : Type 0} → (ℕ → Bytes) → Bytes → ℕ × ErrorBody → Fetched A
refused status_text url (status, body) = client_failed (record {
  method = codes "GET";
  url = url;
  status = status_text status;
  status_code = status;
  body = body;
})

-- A call of a service over HTTP: its items, or its error.
abbrev pub remote : {A : Type 0} → (ℕ → Bytes) → Bytes → Result (ListResponse A) → Fetched (List A)
remote status_text url (ok resp) = fetched resp.items
remote status_text url (err code text) = refused status_text url (refusal code text)

-- The text of an error is ASCII.
abbrev pub IsPlain : {A : Type 0} → Result A → Type 0
IsPlain (ok v) = Unit
IsPlain (err code text) = is_ascii text ≡ true

-- Both sides of the connection read and write one JSON, and the server's writes are taken whole.
pub record Agrees {A : Type 0} (net : Net) (json : Json) (unmarshal : Bytes → Option A)
    (format : Format A) (text : A → Bytes) : Type 0 where
  pub opened : IsOpen format
  pub marshalled : (x : A) → format.marshal x ≡ some (text x)
  pub unmarshalled : (x : A) → unmarshal (text x) ≡ some x
  pub listed :
      (xs : List A)
      → json.unmarshal_list (codes "{\"data\":[" ++ (join (codes ",") (map text xs) ++ codes "]}"))
        ≡ some (map text xs)
  pub refused_with :
      (error : ErrorCode) (message : Bytes)
      → is_ascii message ≡ true
      → json.unmarshal_error (format.encode_error error message)
        ≡ record { code = code_text error; message = message }
  pub is_json : net.parse_media_type (codes "application/json") ≡ some (codes "application/json")

module _ {A : Type 0} (net : Net) (json : Json) (unmarshal : Bytes → Option A) (format : Format A)
    (text : A → Bytes) (status_text : ℕ → Bytes)
    (agrees : Agrees net json unmarshal format text) where
  unmarshal_items_lem :
      (before xs : List A) → unmarshal_items unmarshal before (map text xs) ≡ fetched (before ++ xs)
  unfolding unmarshal_items
  unmarshal_items_lem before [] = ap fetched (sym (append-nil before))
  unmarshal_items_lem before (x ∷ xs) =
      rw (agrees.unmarshalled x, unmarshal_items)
        (unmarshal_items_lem (before ++ x ∷ []) xs ∙ ap fetched (append_assoc before (x ∷ []) xs))

  marshalled_all : (xs : List A) → All (λ x. format.marshal x ≡ some (text x)) xs
  marshalled_all [] = tt
  marshalled_all (x ∷ xs) = (agrees.marshalled x, marshalled_all xs)

  abbrev read : Bytes → Fetched (List A)
  read body = read_raws unmarshal (json.unmarshal_list body)

  read_list :
      (request : HttpRequest) (xs : List A)
      → read_response net json read request
          (answered (received status_text (write_list_response format xs new_writer)))
        ≡ fetched xs
  unfolding read_response
  read_list request xs =
      rw
        (
          write_list_response-join format agrees.opened text xs (marshalled_all xs),
          agrees.listed xs,
        )
        (unmarshal_items_lem [] xs)

  read_error :
      (request : HttpRequest) (status : ℕ) (error : ErrorCode) (message : Bytes)
      → request.method ≡ codes "GET"
      → (status == 200) ≡ false
      → is_ascii message ≡ true
      → read_response net json read request (
          answered (received status_text (write_error_body format status error message new_writer)))
        ≡ refused status_text
            (request_url net request.url request.raw_query)
            (status, record { code = code_text error; message = message })
  unfolding read_response new_client_error bytes_eq
  read_error request status error message get not_ok plain =
      rw
        (
          write_error_body_lem format agrees.opened status error message,
          not_ok,
          agrees.is_json,
          agrees.refused_with error message plain,
          get,
        )
        refl

  read_handler_error :
      (request : HttpRequest) (code : Code) (message : Bytes)
      → request.method ≡ codes "GET"
      → is_ascii message ≡ true
      → read_response net json read request
          (answered (received status_text (send format (write_handler_error code message))))
        ≡ refused status_text (request_url net request.url request.raw_query) (refusal code message)
  unfolding send write_handler_error code_text
  read_handler_error request unimplemented m get plain =
      read_error request 501 error_not_implemented (codes "not implemented") get refl refl
  read_handler_error request not_found m get plain =
      read_error request 404 no_such_footprint m get refl plain
  read_handler_error request invalid_argument m get plain =
      read_error request 400 bad_request m get refl plain
  read_handler_error request permission_denied m get plain =
      read_error request 403 access_denied m get refl plain
  read_handler_error request unauthenticated m get plain =
      read_error request 500 internal_error (codes "internal error") get refl refl
  read_handler_error request resource_exhausted m get plain =
      read_error request 500 internal_error (codes "internal error") get refl refl
  read_handler_error request unavailable m get plain =
      read_error request 500 internal_error (codes "internal error") get refl refl
  read_handler_error request other m get plain =
      read_error request 500 internal_error (codes "internal error") get refl refl

  -- What the client makes of a page.
  pub read_page :
      (request : HttpRequest) (url : ℕ → ℤ → Bytes) (limit offset : ℕ)
      (result : Result (ListResponse A))
      → request.method ≡ codes "GET"
      → IsPlain result
      → read_response net json read request
          (answered (received status_text (send format (write_page url limit offset result))))
        ≡ remote status_text (request_url net request.url request.raw_query) result
  unfolding send write_page
  read_page request url limit offset (ok resp) get plain = read_list request resp.items
  read_page request url limit offset (err code message) get plain =
      read_handler_error request code message get plain
