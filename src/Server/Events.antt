-- ===== src/Server/Events.antt =====
-- server.go: `events`, which checks a CloudEvent, and event.go.
pub mod Accepted
pub mod Uuid
use ileap_go.Common.{
  ℕ, Bool, true, false, not, ◌&&◌, ◌||◌, List, [], ◌∷◌, ◌++◌, Option, none, some, leb, ◌==◌,
  if◌then◌else◌, replicate, Bytes, codes, bytes_eq, trim_space,
}
use ileap_go.Server.Http.{bad_request, Response, empty, write_error}
use ileap_go.Server.Token.{is_hex}

-- `cloudEventEnvelope` and `event`; the data are raw JSON in the one and bytes in the other.
pub record Event : Type 0 where
  pub event_type : Bytes
  pub specversion : Bytes
  pub id : Bytes
  pub source : Bytes
  pub event_data : Bytes

-- What the handler takes from the packages `mime`, `json` and `base64`; `none` is an error.
pub record Codec : Type 0 where
  pub parse_media_type : Bytes → Option Bytes
  pub unmarshal_envelope : Bytes → Option Event
  pub unmarshal_string : Bytes → Option Bytes
  pub compact : Bytes → Option Bytes
  pub unmarshal_pf_ids : Bytes → Option (List Bytes)
  pub decode_std : Bytes → Option Bytes
  pub decode_raw_std : Bytes → Option Bytes
  pub decode_url : Bytes → Option Bytes
  pub decode_raw_url : Bytes → Option Bytes

-- The headers and the body, where `none` is an error of `io.ReadAll`.
pub record EventRequest : Type 0 where
  pub content_type : Bytes
  pub body : Option Bytes

abbrev pub published_v1 : Bytes
published_v1 = codes "org.wbcsd.pathfinder.ProductFootprint.Published.v1"

-- `isKnownEventType`
unfoldable pub is_known_event_type : Bytes → Bool
unfolding bytes_eq
is_known_event_type t =
    bytes_eq t (codes "org.wbcsd.pathfinder.ProductFootprintRequest.Created.v1")
    || bytes_eq t (codes "org.wbcsd.pathfinder.ProductFootprintRequest.Fulfilled.v1")
    || bytes_eq t (codes "org.wbcsd.pathfinder.ProductFootprintRequest.Rejected.v1")
    || bytes_eq t published_v1

-- `uuidRegexp`: one test for each byte.
abbrev pub uuid_pattern : List (ℕ → Bool)
uuid_pattern =
    replicate 8 is_hex
    ++ ((λ c. c == b'-')
        ∷ (replicate 4 is_hex
            ++ ((λ c. c == b'-')
                ∷ (λ c. leb b'1' c && leb c b'5')
                ∷ (replicate 3 is_hex
                    ++ ((λ c. c == b'-')
                        ∷ (λ c.
                            c == b'8'
                            || c == b'9'
                            || c == b'a'
                            || c == b'b'
                            || c == b'A'
                            || c == b'B')
                        ∷ (replicate 3 is_hex ++ ((λ c. c == b'-') ∷ replicate 12 is_hex)))))))

unfoldable pub match_string : List (ℕ → Bool) → Bytes → Bool
match_string [] [] = true
match_string (test ∷ tests) (c ∷ cs) = test c && match_string tests cs
match_string _ _ = false

unfoldable pub all_uuids : List Bytes → Bool
unfolding match_string is_hex
all_uuids [] = true
all_uuids (id ∷ ids) = if not (match_string uuid_pattern id) then false else all_uuids ids

-- The first decoder that succeeds.
abbrev first_some : List (Option Bytes) → Bytes → Bytes
first_some [] s = s
first_some (none ∷ decoders) s = first_some decoders s
first_some (some decoded ∷ decoders) s = decoded

abbrev is_empty : Bytes → Bool
is_empty s = bytes_eq s []

-- The media types that the handler takes.
abbrev pub is_event_media : Bytes → Bool
is_event_media media =
    bytes_eq media (codes "application/cloudevents+json")
    || bytes_eq media (codes "application/json")

module _ (codec : Codec) where
  -- The string of a JSON string, decoded if it is base64 of some kind.
  unfoldable pub decode_text : Bytes → Bytes
  decode_text [] = []
  decode_text (c ∷ cs) =
      let s = c ∷ cs in
      first_some
        (codec.decode_std s
          ∷ codec.decode_raw_std s
          ∷ codec.decode_url s
          ∷ codec.decode_raw_url s
          ∷ [])
        s

  -- `normalizeCloudEventData`; nil is the empty text.
  unfoldable pub normalize_cloud_event_data : Bytes → Option Bytes
  unfolding decode_text trim_space bytes_eq
  normalize_cloud_event_data raw = elim (trim_space raw) [
    | [] ↦ some []
    | c ∷ cs ↦ elim (bytes_eq (c ∷ cs) (codes "null")) [
      | true ↦ some []
      | false ↦ elim (c == b'"') [
        | true ↦ elim (codec.unmarshal_string (c ∷ cs)) [
          | none ↦ none
          | some s ↦ some (decode_text s)
        ]
        | false ↦ codec.compact (c ∷ cs)
      ]
    ]
  ]

  unfoldable pub decode_cloud_event : Bytes → Option Event
  unfolding normalize_cloud_event_data
  decode_cloud_event body = elim (codec.unmarshal_envelope body) [
    | none ↦ none
    | some envelope ↦ elim (normalize_cloud_event_data envelope.event_data) [
      | none ↦ none
      | some normalized ↦ some (record envelope { event_data = normalized })
    ]
  ]

  -- `validateEventData`, `true` where it gives no error.
  unfoldable pub validate_event_data : Event → Bool
  unfolding all_uuids bytes_eq
  validate_event_data event = elim (bytes_eq event.event_type published_v1) [
    | false ↦ true
    | true ↦ elim (codec.unmarshal_pf_ids event.event_data) [
      | none ↦ false
      | some ids ↦ all_uuids ids
    ]
  ]

  -- The checks of `events` on a decoded event: the message of the first that fails.
  unfoldable pub check_event : Event → Option Bytes
  unfolding validate_event_data is_known_event_type bytes_eq
  check_event event =
      if not (bytes_eq event.specversion (codes "1.0"))
        || is_empty event.id
        || is_empty event.source
      then some (codes "missing required event fields")
      else if is_empty event.event_data
      then some (codes "missing event data")
      else if not (validate_event_data event)
      then some (codes "invalid request body")
      else if not (is_known_event_type event.event_type)
      then some (codes "invalid event type")
      else none

  -- The message of a request that is refused.
  unfoldable pub event_fault : EventRequest → Option Bytes
  unfolding decode_cloud_event check_event bytes_eq
  event_fault r = elim (is_empty r.content_type) [
    | true ↦ some (codes "missing content type")
    | false ↦ elim (codec.parse_media_type r.content_type) [
      | none ↦ some (codes "invalid content type")
      | some media ↦ elim (is_event_media media) [
        | false ↦ some (codes "invalid content type: " ++ media)
        | true ↦ elim r.body [
          | none ↦ some (codes "failed to read request body")
          | some body ↦ elim (decode_cloud_event body) [
            | none ↦ some (codes "invalid request body")
            | some event ↦ check_event event
          ]
        ]
      ]
    ]
  ]

  -- `events`: every fault is a bad request, and an event without one is answered by an empty body.
  unfoldable pub events : {A : Type 0} → EventRequest → Response A
  unfolding event_fault
  events r = elim (event_fault r) [
    | some message ↦ write_error 400 bad_request message
    | none ↦ record { status = 200; link = none; body = empty }
  ]
