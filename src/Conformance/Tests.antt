-- ===== src/Conformance/Tests.antt =====
-- An instance of the theorem about the conformance suite: a demo server with one footprint and one TAD.
use ileap_go.Common.{
  arith, false, List, [], ◌∷◌, ◌≡◌, refl, inl, none, some, if◌then◌else◌, All, map, fold,
  equal_fold, Bytes, codes, bytes_eq, pos, trim_space,
}
use ileap_go.Service.{ok}
use ileap_go.Server.Auth.{Clock, is_expired_jwt, split}
use ileap_go.Server.Events.{Event, Codec, published_v1}
use ileap_go.Server.Token.{unescaped_or_raw, query_unescape}
use ileap_go.Demo.Match.{Runtime, ProductFootprint, parse_rfc3339_value}
use ileap_go.Demo.Auth.{issue_token, create_jwt}
use ileap_go.Demo.AuthTests.{shift, shift-IsSigning, token}
use ileap_go.Demo.Tests.{bread, truck}
use ileap_go.Demo.Handler.{Handler}
use ileap_go.Conformance.Checks.{
  Verdict, ConformanceTestConfig, contains, event_to_receive, event_to_reject, published_event,
}
use ileap_go.Conformance.Suite.{created_threshold, run_conformance_tests}
use ileap_go.Conformance.Demo.{Setup, demo_site}
use ileap_go.Conformance.Links.{IsFine}
use ileap_go.Conformance.Posted.{Reads, created_v1, event_uuid}
use ileap_go.Conformance.Passed.{IsReady, run_conformance_tests-IsFine}

abbrev runtime : Runtime
runtime = record {
  to_lower = map fold;
  equal_fold = equal_fold;
  time_parse = λ layout value. some created_threshold;
}

abbrev shipment : ProductFootprint
shipment = record bread { product_category_cpc = codes "83117"; created = some created_threshold }

abbrev handler : Handler
handler = record { footprints = shipment ∷ []; tads = truck ∷ [] }

abbrev event_named : Bytes → Bytes → Event
event_named kind id = record {
  event_type = kind;
  specversion = codes "1.0";
  id = id;
  source = codes "//test.example.com";
  event_data = codes "{}";
}

abbrev codec : Codec
codec = record {
  parse_media_type = λ text. some (codes "application/cloudevents+json");
  unmarshal_envelope = λ body. some (
      if contains (codes "Published") body
      then event_named published_v1 (codes "test-event-001")
      else if contains (codes "014a") body
      then event_named created_v1 (codes "test-event-014a")
      else event_named created_v1 (codes "test-event-012"));
  unmarshal_string = λ text. none;
  compact = λ text. some text;
  unmarshal_pf_ids = λ text. some (event_uuid ∷ []);
  decode_std = λ text. none;
  decode_raw_std = λ text. none;
  decode_url = λ text. none;
  decode_raw_url = λ text. none;
}

abbrev clock : Clock
clock = record { now = pos 100; decode_raw_url = λ part. none; unmarshal_claims = λ bytes. none }

abbrev setup : Setup
setup = record {
  signing = shift;
  modulus = codes "n";
  exponent = codes "e";
  now = 5000000007;
  clock = clock;
  codec = codec;
  runtime = runtime;
  handler = handler;
  base_url = codes "http:";
}

abbrev cfg : ConformanceTestConfig
cfg = record { username = codes "hello"; password = codes "pathfinder"; expired_token = [] }

trimmed : trim_space (codes "{}") ≡ codes "{}"
unfolding trim_space
trimmed = refl

read_received : Reads codec event_to_receive created_v1 (codes "test-event-012")
unfolding contains event_to_receive
read_received = record {
  raw = codes "}";
  compacted = codes "}";
  envelope = refl;
  trimmed = trimmed;
  compacts = refl;
}

read_rejected : Reads codec event_to_reject created_v1 (codes "test-event-014a")
unfolding contains event_to_reject
read_rejected = record {
  raw = codes "}";
  compacted = codes "}";
  envelope = refl;
  trimmed = trimmed;
  compacts = refl;
}

read_published :
    Reads codec (published_event (codes "test-event-001")) published_v1 (codes "test-event-001")
unfolding contains published_event
read_published = record {
  raw = codes "}";
  compacted = codes "}";
  envelope = refl;
  trimmed = trimmed;
  compacts = refl;
}

known :
    issue_token shift 5000000007
      (unescaped_or_raw (codes "hello"))
      (unescaped_or_raw (codes "pathfinder"))
    ≡ ok token
unfolding issue_token query_unescape
known = refl

current : is_expired_jwt clock token.access_token ≡ false
unfolding is_expired_jwt split create_jwt
current = refl

parsed : parse_rfc3339_value runtime (codes "2022-03-01T09:32:20Z") ≡ some created_threshold
unfolding parse_rfc3339_value
parsed = refl

ready : IsReady setup cfg
unfolding bytes_eq
ready = record {
  creds = token;
  known = known;
  current = current;
  signs = shift-IsSigning;
  in_range = omega arith;
  expired = inl refl;
  first = shipment;
  rest = [];
  has_first = refl;
  plain = refl;
  absent = (refl, tt);
  categories = ((λ e. refl), tt);
  modes = ((λ e. refl), tt);
  created = refl;
  lowers_mode = refl;
  lowers_category = refl;
  lowers_created = refl;
  parses_created = parsed;
  clean = ground arith;
  reads = record {
    media = refl;
    to_receive = read_received;
    to_reject = read_rejected;
    published = read_published;
    pf_ids = refl;
  };
}

run_conformance_tests-IsFine_example :
    (vs : List Verdict) × (run_conformance_tests (demo_site setup) cfg ≡ some vs) × All IsFine vs
run_conformance_tests-IsFine_example = run_conformance_tests-IsFine setup cfg ready
