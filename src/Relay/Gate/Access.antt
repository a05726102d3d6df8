-- ===== src/Relay/Gate/Access.antt =====
-- What a request that passes the gate has shown.
use Prim.Native.String.{◌++◌ as append}
use text.Mathlib.Text.{starts_with}
use text.Mathlib.TextPositions.{starts_with-append}
use home_inference_server.Prelude.{
  ℕ, ◌<◌, Bool, true, false, ◌&&◌, not, Option, none, some, String, ◌≡◌, ◌≢◌, refl, sym, subst,
  arith, str_eq, str_eq_iff, leb, ◌==◌, ◌∙◌, Bool-cases, Option-cases, inl, inr,
}
use home_inference_server.Relay.Gate.{
  App, Config, Request, Lookup, resolved, unknown_key, lookup_failed, Backing, owner_identity,
  key_secret, identity_of_app, identity_of_member, is_app_key, is_worker_path, is_public_path,
  Resolution, granted, denied, member_checked, token_verified, key_looked_up, by_key,
  resolve_identity, Verdict, passed, refused, rate_for, quota_for, within_quota, metered, denial,
  authorized, identity_middleware,
}

-- How a caller came by an identity: as an invited member, by a secret key of an app, or by the owner's
-- key.
pub data Shown (cfg : Config) (db : Backing) (r : Request) (identity : String) (app : Option App)
    : Type 0 where
  by_token :
      (token subject : String)
      → db.verify token ≡ some subject
      → db.is_allowed_member subject ≡ some true
      → identity ≡ identity_of_member subject
      → app ≡ none
      → Shown cfg db r identity app
  by_app_key :
      (a : App)
      → db.lookup_key r.api_key ≡ resolved a
      → str_eq a.kind key_secret ≡ true
      → identity ≡ identity_of_app a
      → app ≡ some a
      → Shown cfg db r identity app
  by_owner_key :
      (r.api_key ≡ cfg.static_api_key)
      → str_eq r.api_key "" ≡ false
      → identity ≡ owner_identity
      → app ≡ none
      → Shown cfg db r identity app

-- A result of `resolveIdentity` that is not granted without such a proof.
abbrev pub Justified : Config → Backing → Request → Resolution → Type 0
Justified cfg db r (granted identity app) = Shown cfg db r identity app
Justified cfg db r (denied status) = Unit

token-Justified :
    (cfg : Config) (db : Backing) (r : Request) (token : String) (o : Option String)
    → db.verify token ≡ o
    → Justified cfg db r (token_verified db o)
unfolding token_verified member_checked
token-Justified cfg db r token none e = tt
token-Justified cfg db r token (some subject) e =
    elim (Option-cases (db.is_allowed_member subject)) [
      | inl f ↦ rw f tt
      | inr (allowed, f) ↦ elim (Bool-cases allowed) [
        | inl invited ↦ rw (f, invited) (by_token token subject e (rw (f, invited)) refl refl)
        | inr stranger ↦ rw (f, stranger) tt
      ]
    ]

lookup-Justified :
    (cfg : Config) (db : Backing) (r : Request) (o : Lookup)
    → db.lookup_key r.api_key ≡ o
    → Justified cfg db r (key_looked_up o)
unfolding key_looked_up
lookup-Justified cfg db r unknown_key e = tt
lookup-Justified cfg db r lookup_failed e = tt
lookup-Justified cfg db r (resolved a) e = elim (Bool-cases (str_eq a.kind key_secret)) [
  | inl secret ↦ rw secret (by_app_key a e secret refl refl)
  | inr other ↦ rw other tt
]

key-Justified :
    (cfg : Config) (db : Backing) (r : Request) → Justified cfg db r (by_key cfg db r.api_key)
unfolding by_key
key-Justified cfg db r = elim (Bool-cases (is_app_key r.api_key)) [
  | inl app ↦ rw app (lookup-Justified cfg db r (db.lookup_key r.api_key) refl)
  | inr other ↦
      elim (Bool-cases (
        not (str_eq cfg.static_api_key "")
        && not (str_eq r.api_key "")
        && str_eq r.api_key cfg.static_api_key)) [
          | inl same ↦
              rw (other, same)
                (by_owner_key (ground (arith, str_eq_iff r.api_key cfg.static_api_key))
                  (ground arith) refl refl)
          | inr differs ↦ rw (other, differs) tt
        ]
]

resolve-Justified :
    (cfg : Config) (db : Backing) (r : Request) → Justified cfg db r (resolve_identity cfg db r)
unfolding resolve_identity
resolve-Justified cfg db r =
    elim (Bool-cases (starts_with r.authorization "Bearer " && cfg.has_verifier)) [
      | inl bearer ↦ rw bearer (token-Justified cfg db r _ _ refl)
      | inr other ↦ rw other (key-Justified cfg db r)
    ]

-- What is known of a request that passed under an identity.
pub data Entitled (cfg : Config) (db : Backing) (r : Request) (identity : String) : Type 0 where
  anyone : is_public_path r.path ≡ true → identity ≡ "" → Entitled cfg db r identity
  caller :
      (app : Option App)
      → Shown cfg db r identity app
      → (is_worker_path r.path ≡ true → identity ≡ owner_identity)
      → (str_eq r.path "/enqueue" ≡ true
          → (db.allow_at identity (rate_for cfg app) ≡ true)
            × (used : ℕ) × (db.usage_today identity ≡ some used)
            × (used < quota_for cfg app))
      → Entitled cfg db r identity

abbrev pub PassesOnly : Config → Backing → Request → Verdict → Type 0
PassesOnly cfg db r (passed identity) = Entitled cfg db r identity
PassesOnly cfg db r (refused status code) = leb 400 status ≡ true

denial-PassesOnly :
    (cfg : Config) (db : Backing) (r : Request) (status : ℕ) → PassesOnly cfg db r (denial status)
unfolding denial
denial-PassesOnly cfg db r status = elim (Bool-cases (status == 403)) [
  | inl forbidden ↦ rw forbidden refl
  | inr other ↦ elim (Bool-cases (status == 500)) [
    | inl broken ↦ rw (other, broken) refl
    | inr unknown ↦ rw (other, unknown) refl
  ]
]

module _ (cfg : Config) (db : Backing) (r : Request) (identity : String) (app : Option App) where
  within-Entitled :
      (o : Option ℕ)
      → db.usage_today identity ≡ o
      → db.allow_at identity (rate_for cfg app) ≡ true
      → Shown cfg db r identity app
      → (is_worker_path r.path ≡ true → identity ≡ owner_identity)
      → PassesOnly cfg db r (within_quota identity (quota_for cfg app) o)
  unfolding within_quota
  within-Entitled none e allowed shown worker = refl
  within-Entitled (some used) e allowed shown worker =
      elim (Bool-cases (leb (quota_for cfg app) used)) [
        | inl spent ↦ rw spent refl
        | inr left ↦ rw left (caller app shown worker (λ _. (allowed, used, e, ground arith)))
      ]

  metered-Entitled :
      Shown cfg db r identity app
      → (is_worker_path r.path ≡ true → identity ≡ owner_identity)
      → PassesOnly cfg db r (metered cfg db identity app)
  unfolding metered
  metered-Entitled shown worker = elim (Bool-cases (db.allow_at identity (rate_for cfg app))) [
    | inl allowed ↦ rw allowed (within-Entitled (db.usage_today identity) refl allowed shown worker)
    | inr throttled ↦ rw throttled refl
  ]

owner_route :
    (worker identity : Bool) → worker && not identity ≡ false → worker ≡ true → identity ≡ true
owner_route worker identity h e = ground arith

differs : (b : Bool) → b ≡ false → b ≡ true → ⊥
differs b h e = cc

authorized-PassesOnly :
    (cfg : Config) (db : Backing) (r : Request) (o : Resolution)
    → Justified cfg db r o
    → PassesOnly cfg db r (authorized cfg db r o)
unfolding authorized
authorized-PassesOnly cfg db r (denied status) j = denial-PassesOnly cfg db r status
authorized-PassesOnly cfg db r (granted identity app) j =
    elim (Bool-cases (is_worker_path r.path && not (str_eq identity owner_identity))) [
      | inl stranger ↦ rw stranger refl
      | inr fine ↦
          let worker : is_worker_path r.path ≡ true → identity ≡ owner_identity = λ e.
            (str_eq_iff identity owner_identity).0
              (owner_route (is_worker_path r.path) (str_eq identity owner_identity) fine e) in
          elim (Bool-cases (str_eq r.path "/enqueue")) [
            | inl enqueue ↦ rw (fine, enqueue) (metered-Entitled cfg db r identity app j worker)
            | inr other ↦
                rw (fine, other)
                  (caller app j worker (λ e. absurd (differs (str_eq r.path "/enqueue") other e)))
          ]
    ]

pub identity_middleware-PassesOnly :
    (cfg : Config) (db : Backing) (r : Request) → PassesOnly cfg db r (identity_middleware cfg db r)
unfolding identity_middleware
identity_middleware-PassesOnly cfg db r = elim (Bool-cases (is_public_path r.path)) [
  | inl public ↦ rw public (anyone public refl)
  | inr private ↦
      rw private
        (authorized-PassesOnly cfg db r (resolve_identity cfg db r) (resolve-Justified cfg db r))
]

-- No member and no app is the owner, whatever its name.
pub other_prefix : (p s t : String) → starts_with t p ≡ false → append p s ≢ t
other_prefix p s t h e =
    differs (starts_with t p) h (subst (λ x. starts_with x p ≡ true) e (starts_with-append p s))

member-owner : (subject : String) → identity_of_member subject ≢ owner_identity
unfolding identity_of_member
member-owner subject = other_prefix "user:" subject owner_identity refl

app-owner : (a : App) → identity_of_app a ≢ owner_identity
unfolding identity_of_app
app-owner a = other_prefix "app:" a.id owner_identity refl

Shown-owner :
    (cfg : Config) (db : Backing) (r : Request) (identity : String) (app : Option App)
    → Shown cfg db r identity app
    → identity ≡ owner_identity
    → (r.api_key ≡ cfg.static_api_key) × (str_eq r.api_key "" ≡ false)
Shown-owner cfg db r identity app (by_token token subject _ _ e _) h =
    absurd (member-owner subject (sym e ∙ h))
Shown-owner cfg db r identity app (by_app_key a _ _ e _) h = absurd (app-owner a (sym e ∙ h))
Shown-owner cfg db r identity app (by_owner_key same filled _ _) h = (same, filled)

worker_public : (path : String) → is_worker_path path ≡ true → is_public_path path ≡ true → ⊥
unfolding is_worker_path is_public_path
worker_public path w p = elim (Bool-cases (str_eq path "/claim")) [
  | inl claim ↦
      differs (is_public_path "/claim") refl
        (subst (λ x. is_public_path x ≡ true) ((str_eq_iff path "/claim").0 claim) p)
  | inr other ↦ elim (Bool-cases (str_eq path "/ack")) [
    | inl ack ↦
        differs (is_public_path "/ack") refl
          (subst (λ x. is_public_path x ≡ true) ((str_eq_iff path "/ack").0 ack) p)
    | inr neither ↦ differs (is_worker_path path) (rw (other, neither)) w
  ]
]

Entitled-owner :
    (cfg : Config) (db : Backing) (r : Request) (identity : String)
    → is_worker_path r.path ≡ true
    → Entitled cfg db r identity
    → (r.api_key ≡ cfg.static_api_key) × (str_eq r.api_key "" ≡ false)
Entitled-owner cfg db r identity w (anyone p _) = absurd (worker_public r.path w p)
Entitled-owner cfg db r identity w (caller app shown owner _) =
    Shown-owner cfg db r identity app shown (owner w)

-- Only a request that carries the owner's key, which is not empty, reaches the routes that read a job's
-- prompt and write its answer: no member, whatever its user id, and no app, whatever its id, passes as
-- the PC.
pub identity_middleware-worker :
    (cfg : Config) (db : Backing) (r : Request) (identity : String)
    → is_worker_path r.path ≡ true
    → identity_middleware cfg db r ≡ passed identity
    → (r.api_key ≡ cfg.static_api_key) × (str_eq r.api_key "" ≡ false)
identity_middleware-worker cfg db r identity w e =
    Entitled-owner cfg db r identity w
      (subst (PassesOnly cfg db r) e (identity_middleware-PassesOnly cfg db r))
