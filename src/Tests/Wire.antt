-- ===== src/Tests/Wire.antt =====
-- What stands between the interface and the service in the tests: a proxy that tests prefixes,
-- addresses that need no escaping, and the texts of Tests.Codec.
use Prim.Native.String
use asset_tracker.Prelude.{
  ◌≡◌, refl, inl, inr, true, Option, none, some, String, ◌==◌, eq_iff, arith, any, is_some, subst,
  Bool-cases, if◌then◌else◌,
}
use asset_tracker.Api.Http.{Fetch, network_failure}
use asset_tracker.Node.Repository.{Promises, equals, held_by}
use asset_tracker.Node.Repository.Memory.{memory, not_before}
use asset_tracker.Node.Repository.Refines.{mongo_event_repository-Promises}
use asset_tracker.Node.Reply.{Body}
use asset_tracker.Tests.Node.{repository}
use asset_tracker.System.Proxy.{without, without-append}
use asset_tracker.System.Wire.{Wire, endpoints}
use asset_tracker.Node.Server.{Url}
use asset_tracker.Tests.Codec.{stringify, json_parse, reads_back}

abbrev pub plain_url : String → Url
plain_url s = record { pathname = s; param = λ k. none }

abbrev pub query_url : (key value : String) → Url
query_url key value = record {
  pathname = "/events";
  param = λ k. if k == key then some value else none;
}

abbrev pub parse_url : String → Option Url
parse_url s = elim (without "/events?deviceId=" s) [
  | some d ↦ some (query_url "deviceId" d)
  | none ↦ elim (without "/events?type=" s) [
    | some t ↦ some (query_url "type" t)
    | none ↦ some (plain_url s)
  ]
]

abbrev pub Parses : String → Type 0
Parses p = (u : Url) × (parse_url p ≡ some u) × (u.pathname ≡ p) × ((k : String) → u.param k ≡ none)

pub Parses-endpoint : (p : String) → any (λ k. k == p) endpoints ≡ true → Parses p
Parses-endpoint p h = elim (Bool-cases ("/events" == p)) [
  | inl a ↦ subst Parses ((eq_iff "/events" p).0 a) (plain_url "/events", refl, refl, λ k. refl)
  | inr a ↦ elim (Bool-cases ("/health/ready" == p)) [
    | inl b ↦
        subst Parses ((eq_iff "/health/ready" p).0 b)
          (plain_url "/health/ready", refl, refl, λ k. refl)
    | inr b ↦ elim (Bool-cases ("/metrics" == p)) [
      | inl c ↦
          subst Parses ((eq_iff "/metrics" p).0 c) (plain_url "/metrics", refl, refl, λ k. refl)
      | inr c ↦
          subst Parses ((eq_iff "/metrics/requests" p).0 (ground arith))
            (plain_url "/metrics/requests", refl, refl, λ k. refl)
    ]
  ]
]

pub parses_device :
    (d : String)
    → (u : Url) × (parse_url (String.◌++◌ "/events?deviceId=" d) ≡ some u)
      × (u.pathname ≡ "/events")
      × (u.param "deviceId" ≡ some d)
      × (u.param "type" ≡ none)
parses_device d = (
  query_url "deviceId" d,
  rw (without-append "/events?deviceId=" d, parse_url) refl,
  refl,
  refl,
  refl,
)

abbrev pub wire : Wire
wire = record {
  matches = λ k url. is_some (without k url);
  encode = λ d. d;
  parse_url = parse_url;
  json_parse = json_parse;
  stringify = stringify;
  matches_start = λ k url. refl;
  parses_endpoint = Parses-endpoint;
  parses_device = parses_device;
  parses_deleted = (query_url "type" "device.deleted", refl, refl, refl, refl);
  reads_back = reads_back;
}

abbrev pub offline : Fetch Body
offline q = network_failure

pub promised : Promises repository (held_by memory) not_before equals
promised = mongo_event_repository-Promises memory
