-- ===== src/Pc/Admin.antt =====
-- internal/server/admin.go, middleware.go and the routes of server.go, wrapped as cmd/server/main.go does:
-- who may reach what, and the drain that stops new work.
--
-- The parsers of net (`SplitHostPort`, `ParseIP`) are the record `Net`. The dashboard and the routes that
-- change none of the state here are targets.
pub mod Drained
pub mod Guarded
mod Tests
use Prim.Native.String.{len, slice}
use text.Mathlib.Text.{starts_with}
use home_inference_server.Prelude.{
  ℕ, Bool, true, false, ◌&&◌, ◌||◌, not, Option, none, some, List, [], ◌∷◌, String, str_eq,
  if◌then◌else◌,
}
use home_inference_server.Prelude.Int.{ℤ}
use home_inference_server.Pc.Api.{InferRequest}
use home_inference_server.Pc.Infer.{Handled, is_blank, is_empty, handle_infer}
use home_inference_server.Pc.Worker.{Client, pause, resume, Turn, Round, ends, goes_on, round}

-- `SplitHostPort` (the host, or an error), and `ParseIP`: whether the address is a loopback one, or an
-- error.
pub record Net : Type 0 where
  pub split_host_port : String → Option String
  pub parse_ip : String → Option Bool

pub host_of : String → Option String → String
host_of remote_addr none = remote_addr
host_of remote_addr (some host) = host

pub is_loopback_ip : Option Bool → Bool
is_loopback_ip none = false
is_loopback_ip (some loopback) = loopback

pub is_loopback : Net → String → Bool
unfolding host_of is_loopback_ip
is_loopback net remote_addr =
    is_loopback_ip (net.parse_ip (host_of remote_addr (net.split_host_port remote_addr)))

pub record HttpRequest : Type 0 where
  pub path : String
  pub method : String
  pub remote_addr : String
  pub api_key : String
  pub origin : String
  pub body : Option InferRequest

-- The drain flag, the worker if a relay is configured, and the restart channel, which holds one signal.
pub record Controls : Type 0 where
  pub draining : Bool
  pub pause_sink : Option Client
  pub restart_signal : Option Bool

abbrev toggled : Bool → Client → Client
toggled true c = pause c
toggled false c = resume c

abbrev toggle_sink : Bool → Option Client → Option Client
toggle_sink v none = none
toggle_sink v (some c) = some (toggled v c)

abbrev pub same_bool : Bool → Bool → Bool
same_bool true b = b
same_bool false b = not b

pub set_draining : Bool → Controls → Controls
unfolding pause resume
set_draining v s =
    if same_bool s.draining v
    then s
    else record s { draining = v; pause_sink = toggle_sink v s.pause_sink }

abbrev pub state_of : Controls → String
state_of s = if s.draining then "draining" else "ok"

-- What a request gets: a state of the admin routes, an error, `handleInfer`'s decision, an answer to a
-- preflight, or one of the handlers that leave the state here alone.
pub data Target : Type 0 where
  status pressure health tokenize model_props describe logs chats dashboard : Target
  chat_item : String → Target

pub data Out : Type 0 where
  state_reply : String → Out
  error_reply : ℕ → String → Out
  inferred : Handled → Out
  preflight : Out
  reaches : Target → Out

abbrev pub path_admin : String
path_admin = "/v1/admin"

abbrev pub path_drain : String
path_drain = "/v1/admin/drain"

abbrev pub path_resume : String
path_resume = "/v1/admin/resume"

abbrev pub path_restart : String
path_restart = "/v1/admin/restart"

abbrev pub is_call : String → String → HttpRequest → Bool
is_call method path r = str_eq r.method method && str_eq r.path path

-- The cases of the switch of `handleAdmin`.
pub data Action : Type 0 where
  hide probe drain undrain restart wrong_method unknown : Action

known_admin : String → Bool
known_admin path =
    str_eq path path_admin
    || str_eq path path_drain
    || str_eq path path_resume
    || str_eq path path_restart

pub action_of : Net → HttpRequest → Action
unfolding known_admin
action_of net r =
    if not (is_loopback net r.remote_addr)
    then hide
    else if is_call "GET" path_admin r
    then probe
    else if is_call "POST" path_drain r
    then drain
    else if is_call "POST" path_resume r
    then undrain
    else if is_call "POST" path_restart r
    then restart
    else if known_admin r.path
    then wrong_method
    else unknown

-- The signal is sent at most once, and never blocks.
restarted : Controls → Option Bool → Out × Controls
restarted s none = (error_reply 501 "not_implemented", s)
restarted s (some pending) =
    (state_reply "restarting", record (set_draining true s) { restart_signal = some true })

pub take_action : Action → Controls → Out × Controls
unfolding restarted
take_action hide s = (error_reply 404 "invalid_request", s)
take_action probe s = (state_reply (state_of s), s)
take_action drain s = (state_reply "draining", set_draining true s)
take_action undrain s = (state_reply "ok", set_draining false s)
take_action restart s = restarted s s.restart_signal
take_action wrong_method s = (error_reply 405 "invalid_request", s)
take_action unknown s = (error_reply 404 "invalid_request", s)

pub handle_admin : Net → HttpRequest → Controls → Out × Controls
handle_admin net r s = take_action (action_of net r) s

-- `methodGuarded`.
method_guarded : String → Option String
method_guarded path =
    if str_eq path "/v1/infer" || str_eq path "/v1/tokenize" || str_eq path "/v1/describe"
    then some "POST"
    else if str_eq path "/v1/status"
        || str_eq path "/v1/status/pressure"
        || str_eq path "/healthz"
        || str_eq path "/v1/model/props"
        || str_eq path "/v1/logs"
    then some "GET"
    else none

bad_method : Option String → String → Bool
bad_method none method = false
bad_method (some want) method = not (str_eq method want)

-- The parameters of the program: what `handleInfer` uses, the key, and the origins of CORS.
pub record Config : Type 0 where
  pub net : Net
  pub decode_base64 : String → Option (List ℕ)
  pub infer_timeout : ℤ
  pub fresh_id : String
  pub request_id : String
  pub api_key : String
  pub has_cors : Bool

-- Where a request goes: an error, a handler that leaves the state here alone, the answer to a preflight,
-- `handleInfer` or `handleAdmin`.
pub data Decision : Type 0 where
  reject : ℕ → String → Decision
  hand_to : Target → Decision
  answer_preflight : Decision
  to_infer : Decision
  to_admin : Decision

-- The switch of `ServeHTTP`, below the method guard.
switch : HttpRequest → Decision
switch r =
    if is_call "POST" "/v1/infer" r
    then to_infer
    else if is_call "GET" "/v1/status" r
    then hand_to status
    else if is_call "GET" "/v1/status/pressure" r
    then hand_to pressure
    else if is_call "GET" "/healthz" r
    then hand_to health
    else if is_call "POST" "/v1/tokenize" r
    then hand_to tokenize
    else if is_call "GET" "/v1/model/props" r
    then hand_to model_props
    else if is_call "POST" "/v1/describe" r
    then hand_to describe
    else if is_call "GET" "/v1/logs" r
    then hand_to logs
    else if str_eq r.path "/v1/chats"
    then hand_to chats
    else if starts_with r.path "/v1/chats/"
    then hand_to (chat_item (slice r.path (len "/v1/chats/") (len r.path)))
    else if str_eq r.path path_admin || starts_with r.path "/v1/admin/"
    then to_admin
    else reject 404 "invalid_request"

serve_http : HttpRequest → Decision
unfolding method_guarded bad_method switch
serve_http r =
    if bad_method (method_guarded r.path) r.method then reject 405 "invalid_request" else switch r

-- The mux of cmd/server.
mux : HttpRequest → Decision
unfolding serve_http
mux r =
    if starts_with r.path "/v1/" || str_eq r.path "/healthz"
    then serve_http r
    else hand_to dashboard

module _ (cfg : Config) where
  api_key_auth : HttpRequest → Decision
  unfolding mux
  api_key_auth r =
      if is_blank cfg.api_key
      then mux r
      else if not (starts_with r.path "/v1/") || is_loopback cfg.net r.remote_addr
      then mux r
      else if str_eq r.api_key cfg.api_key
      then mux r
      else reject 401 "unauthorized"

  -- CORS answers a preflight before the key is asked for; its headers are left out.
  pub decide : HttpRequest → Decision
  unfolding api_key_auth
  decide r = if cfg.has_cors && str_eq r.method "OPTIONS" then answer_preflight else api_key_auth r

  pub perform : Decision → HttpRequest → Controls → Out × Controls
  perform (reject http_status code) r s = (error_reply http_status code, s)
  perform (hand_to target) r s = (reaches target, s)
  perform answer_preflight r s = (preflight, s)
  perform to_infer r s = (
    inferred (
        handle_infer cfg.decode_base64 cfg.infer_timeout s.draining cfg.fresh_id cfg.request_id
          r.body),
    s,
  )
  perform to_admin r s = handle_admin cfg.net r s

  unfoldable pub serve : HttpRequest → Controls → Out × Controls
  serve r s = perform (decide r) r s
