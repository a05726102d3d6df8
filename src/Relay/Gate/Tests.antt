-- ===== src/Relay/Gate/Tests.antt =====
-- Requests at the gate of a relay with one member, one app and the owner's key.
use home_inference_server.Prelude.{
  true, false, none, some, String, ◌≡◌, refl, str_eq, if◌then◌else◌,
}
use home_inference_server.Relay.Gate.{
  App, Config, Request, resolved, unknown_key, Backing, is_app_key, is_worker_path, is_public_path,
  resolve_identity, identity_of_app, identity_of_member, passed, refused, rate_for, quota_for,
  identity_middleware,
}
use home_inference_server.Relay.Gate.Access.{identity_middleware-worker}

abbrev site : App
site = record { id = "site"; kind = "sk"; per_min = 20; per_day = 3 }

abbrev config : Config
config = record {
  static_api_key = "owner-key";
  has_verifier = true;
  rate_per_min = 10;
  daily_quota = 200;
  max_pending_depth = 500;
}

abbrev backing : Backing
backing = record {
  trim_space = λ t. t;
  verify = λ t. if str_eq t "good" then some "u1" else none;
  is_allowed_member = λ s. some (str_eq s "u1");
  lookup_key = λ k.
      if str_eq k "sk_1"
      then resolved site
      else if str_eq k "pk_1"
      then resolved (record site { kind = "pk" })
      else unknown_key;
  allow_at = λ _ _. true;
  usage_today = λ i. some (if str_eq i "app:site" then 3 else 0);
}

abbrev ask_for : String → String → String → Request
ask_for path authorization key = record {
  path = path;
  authorization = authorization;
  api_key = key;
}

member_enqueues :
    identity_middleware config backing (ask_for "/enqueue" "Bearer good" "") ≡ passed "user:u1"
unfolding identity_middleware is_public_path resolve_identity is_worker_path identity_of_member
    rate_for quota_for
member_enqueues = refl

app_over_quota :
    identity_middleware config backing (ask_for "/enqueue" "" "sk_1") ≡ refused 429 "quota_exceeded"
unfolding identity_middleware is_public_path resolve_identity is_worker_path is_app_key
    identity_of_app rate_for quota_for
app_over_quota = refl

publishable_refused :
    identity_middleware config backing (ask_for "/result/1" "" "pk_1") ≡ refused 401 "unauthorized"
unfolding identity_middleware is_public_path resolve_identity is_app_key
publishable_refused = refl

member_claims :
    identity_middleware config backing (ask_for "/claim" "Bearer good" "owner-key")
    ≡ refused 403 "unauthorized"
unfolding identity_middleware is_public_path resolve_identity is_worker_path identity_of_member
member_claims = refl

abbrev pc_claims : Request
pc_claims = ask_for "/claim" "" "owner-key"

owner_claims : identity_middleware config backing pc_claims ≡ passed "apikey"
unfolding identity_middleware is_public_path resolve_identity is_worker_path is_app_key
owner_claims = refl

claim_route : is_worker_path "/claim" ≡ true
unfolding is_worker_path
claim_route = refl

identity_middleware-worker_example :
    ("owner-key" ≡ config.static_api_key) × (str_eq "owner-key" "" ≡ false)
identity_middleware-worker_example =
    identity_middleware-worker config backing pc_claims "apikey" claim_route owner_claims
