-- ===== src/Server/Writer.antt =====
-- server.go: how a response is written, `writeError`, `writeGetFootprintResponse`,
-- `writeListFootprintsResponse` and `writeListTADsResponse`. The headers are left out.
pub mod Written
use ileap_go.Common.{
  ℕ, zero, suc, ◌≤◌, Bool, true, false, List, [], ◌∷◌, ◌++◌, Option, none, some, leb, if◌then◌else◌,
  length, take, Bytes, codes,
}
use ileap_go.Server.Http.{
  ErrorCode, internal_error, OauthErrorCode, Body, data_list, data_item, json, pact_error,
  oauth_error, empty, Response,
}

-- `http.ResponseWriter`: the status that is sent, fixed by the first write, and the bytes behind it.
pub record Writer : Type 0 where
  pub status : Option ℕ
  pub written : Bytes

abbrev pub new_writer : Writer
new_writer = record { status = none; written = [] }

abbrev pub status_or : ℕ → Option ℕ → Option ℕ
status_or code none = some code
status_or code (some sent) = some sent

-- `w.WriteHeader(status)`: a second call changes nothing.
abbrev pub write_header : ℕ → Writer → Writer
write_header code w = record w { status = status_or code w.status }

-- What the code takes from `encoding/json` and `protojson`, and how many bytes of a write the
-- connection takes behind those that are written.
pub record Format (A : Type 0) : Type 0 where
  pub marshal : A → Option Bytes
  pub encode_error : ErrorCode → Bytes → Bytes
  pub encode_oauth_error : OauthErrorCode → Bytes → Bytes
  pub encode_json : A → Bytes
  pub taken : Bytes → Bytes → ℕ

-- `if err != nil { return }` behind a write: what follows runs only if there is no error.
abbrev pub and_then : Writer × Bool → (Writer → Writer) → Writer
and_then (w, false) next = w
and_then (w, true) next = next w

module _ {A : Type 0} (format : Format A) where
  -- `w.Write(data)`, and whether it gives no error.
  unfoldable pub write : Bytes → Writer → Writer × Bool
  write data_bytes w =
      let n = format.taken w.written data_bytes in
      (
        record { status = status_or 200 w.status; written = w.written ++ take n data_bytes },
        leb (length data_bytes) n,
      )

  abbrev pub write_last : Bytes → Writer → Writer
  write_last data_bytes w = (write data_bytes w).0

  -- `writeError`
  unfoldable pub write_error_body : ℕ → ErrorCode → Bytes → Writer → Writer
  write_error_body code error message w =
      write_last (format.encode_error error message) (write_header code w)

  abbrev pub write_internal_error : Writer → Writer
  write_internal_error = write_error_body 500 internal_error (codes "internal error")

  -- `if i > 0 { w.Write([]byte(",")) }`
  abbrev pub write_comma : ℕ → Writer → Writer × Bool
  write_comma zero w = (w, true)
  write_comma (suc i) w = write (codes ",") w

  -- The loop over the items, and what follows it.
  unfoldable pub items_loop : ℕ → List A → Writer → Writer
  items_loop i [] w = write_last (codes "]}") w
  items_loop i (x ∷ xs) w = and_then (write_comma i w) (λ w'. elim (format.marshal x) [
    | none ↦ write_internal_error w'
    | some data_bytes ↦ and_then (write data_bytes w') (items_loop (suc i) xs)
  ])

  -- `writeListFootprintsResponse` and `writeListTADsResponse`
  unfoldable pub write_list_response : List A → Writer → Writer
  write_list_response xs w = and_then (write (codes "{\"data\":[") w) (items_loop 0 xs)

  -- `writeGetFootprintResponse`
  unfoldable pub write_get_footprint_response : A → Writer → Writer
  write_get_footprint_response x w = elim (format.marshal x) [
    | none ↦ write_internal_error w
    | some data_bytes ↦
        and_then (write (codes "{\"data\":") w)
          (λ w'. and_then (write data_bytes w') (write_last (codes "}")))
  ]

  abbrev write_body : ℕ → Body A → Writer → Writer
  write_body code (data_list xs) w = write_list_response xs w
  write_body code (data_item x) w = write_get_footprint_response x w
  write_body code (json v) w = write_last (format.encode_json v) w
  write_body code (pact_error error message) w = write_error_body code error message w
  write_body code (oauth_error error description) w =
      write_last (format.encode_oauth_error error description) (write_header code w)
  write_body code empty w = write_header code w

  -- What a response of the handlers sends.
  unfoldable pub send : Response A → Writer
  send response = write_body response.status response.body new_writer
