-- ===== src/Relay/Gate.antt =====
-- internal/railwayq/auth.go: who a request is from, and what it may reach.
--
-- Stack Auth's verifier, the member and key tables and the token-bucket limiter are fields of `Backing`: what
-- they answer for a request. A status and an error code stand for the reply that `writeErr` sends.
pub mod Access
mod Tests
use Prim.Native.String.{◌++◌ as append, len, slice}
use text.Mathlib.Text.{starts_with}
use home_inference_server.Prelude.{
  ℕ, Bool, true, false, ◌&&◌, ◌||◌, not, Option, none, some, String, str_eq, if◌then◌else◌, leb,
  ◌==◌,
}

-- The fields of an app and its spec that the gate reads. A rate is only passed on to the limiter, and
-- `Validate` admits no negative limit.
pub record App : Type 0 where
  pub id : String
  pub kind : String
  pub per_min : ℕ
  pub per_day : ℕ

-- A quota under 0 acts as 0 does.
pub record Config : Type 0 where
  pub static_api_key : String
  pub has_verifier : Bool
  pub rate_per_min : ℕ
  pub daily_quota : ℕ
  pub max_pending_depth : ℕ

pub record Request : Type 0 where
  pub path : String
  pub authorization : String
  pub api_key : String

-- What `LookupKey` returns: an app, `ErrNotFound`, or the error of a query.
pub data Lookup : Type 0 where
  resolved : App → Lookup
  unknown_key : Lookup
  lookup_failed : Lookup

-- `trim_space` is `strings.TrimSpace`. A query that fails answers `none`.
pub record Backing : Type 0 where
  pub trim_space : String → String
  pub verify : String → Option String
  pub is_allowed_member : String → Option Bool
  pub lookup_key : String → Lookup
  pub allow_at : String → ℕ → Bool
  pub usage_today : String → Option ℕ

abbrev pub owner_identity : String
owner_identity = "apikey"

abbrev pub key_secret : String
key_secret = "sk"

pub identity_of_app : App → String
identity_of_app a = append "app:" a.id

pub identity_of_member : String → String
identity_of_member subject = append "user:" subject

unfoldable pub is_app_key : String → Bool
is_app_key key = starts_with key "pk_" || starts_with key "sk_"

pub is_worker_path : String → Bool
is_worker_path path = str_eq path "/claim" || str_eq path "/ack"

pub is_public_path : String → Bool
is_public_path path =
    str_eq path "/healthz"
    || str_eq path "/docs"
    || str_eq path "/apps/ask"
    || str_eq path "/apps/status"

-- The result of `resolveIdentity`.
pub data Resolution : Type 0 where
  granted : String → Option App → Resolution
  denied : ℕ → Resolution

member_checked : String → Option Bool → Resolution
member_checked subject none = denied 500
member_checked subject (some allowed) =
    if allowed then granted (identity_of_member subject) none else denied 403

token_verified : Backing → Option String → Resolution
unfolding member_checked
token_verified db none = denied 401
token_verified db (some subject) = member_checked subject (db.is_allowed_member subject)

key_looked_up : Lookup → Resolution
key_looked_up unknown_key = denied 401
key_looked_up lookup_failed = denied 500
key_looked_up (resolved a) =
    if str_eq a.kind key_secret then granted (identity_of_app a) (some a) else denied 401

by_key : Config → Backing → String → Resolution
unfolding key_looked_up
by_key cfg db got =
    if is_app_key got
    then key_looked_up (db.lookup_key got)
    else if not (str_eq cfg.static_api_key "")
        && not (str_eq got "")
        && str_eq got cfg.static_api_key
    then granted owner_identity none
    else denied 401

pub resolve_identity : Config → Backing → Request → Resolution
unfolding token_verified by_key
resolve_identity cfg db r =
    if starts_with r.authorization "Bearer " && cfg.has_verifier
    then token_verified db
        (db.verify (db.trim_space (slice r.authorization (len "Bearer ") (len r.authorization))))
    else by_key cfg db r.api_key

-- The request goes on to its handler under an identity, or is answered by an error.
pub data Verdict : Type 0 where
  passed : String → Verdict
  refused : ℕ → String → Verdict

pub rate_for : Config → Option App → ℕ
rate_for cfg none = cfg.rate_per_min
rate_for cfg (some a) = a.per_min

pub quota_for : Config → Option App → ℕ
quota_for cfg none = cfg.daily_quota
quota_for cfg (some a) = a.per_day

within_quota : String → ℕ → Option ℕ → Verdict
within_quota identity quota none = refused 500 "internal_error"
within_quota identity quota (some used) =
    if leb quota used then refused 429 "quota_exceeded" else passed identity

-- The checks of /enqueue.
metered : Config → Backing → String → Option App → Verdict
unfolding within_quota
metered cfg db identity app =
    if not (db.allow_at identity (rate_for cfg app))
    then refused 429 "rate_limited"
    else within_quota identity (quota_for cfg app) (db.usage_today identity)

denial : ℕ → Verdict
denial status =
    if status == 403
    then refused 403 "unauthorized"
    else if status == 500
    then refused 500 "internal_error"
    else refused 401 "unauthorized"

authorized : Config → Backing → Request → Resolution → Verdict
unfolding metered denial
authorized cfg db r (denied status) = denial status
authorized cfg db r (granted identity app) =
    if is_worker_path r.path && not (str_eq identity owner_identity)
    then refused 403 "unauthorized"
    else if str_eq r.path "/enqueue"
    then metered cfg db identity app
    else passed identity

-- `identityMiddleware`. A public route has no identity.
pub identity_middleware : Config → Backing → Request → Verdict
unfolding authorized
identity_middleware cfg db r =
    if is_public_path r.path then passed "" else authorized cfg db r (resolve_identity cfg db r)
