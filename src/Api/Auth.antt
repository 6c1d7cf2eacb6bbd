-- ===== src/Api/Auth.antt =====
-- Logging in, web-ui/src/lib/api/auth.ts.
use asset_tracker.Prelude.{none, some, [], ◌∷◌, String, if◌then◌else◌}
use asset_tracker.Api.Http.{
  post, Request, Reply, network_failure, response, Fetch, fetch_failed, bad_json, api_error,
  resolved, rejected, Call, is_ok,
}

abbrev login_request : String → String → Request
login_request username password = record {
  method = post;
  url = "/api/go/auth/login";
  headers = ("Content-Type", "application/json") ∷ [];
  body = some (("username", username) ∷ ("password", password) ∷ []);
}

abbrev settle : {B : Type 0} → Request → Reply B → Call B B
settle r network_failure = record { sent = r; dispatched = []; settled = rejected fetch_failed }
settle r (response status none) = record { sent = r; dispatched = []; settled = rejected bad_json }
settle r (response status (some b)) = record {
  sent = r;
  dispatched = [];
  settled = if is_ok status then resolved b else rejected (api_error status b);
}

unfoldable pub login : {B : Type 0} → Fetch B → String → String → Call B B
login fetch username password = let r = login_request username password in settle r (fetch r)
