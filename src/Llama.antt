-- ===== src/Llama.antt =====
-- internal/backend/llamacpp/backend.go: when the llama-server subprocess is started, reused, replaced and
-- stopped, and how a request is shaped for it.
--
-- A subprocess is the number of its start; `left_running` lists those that have been started, not stopped
-- and not died. A call runs alone: the locks, the sleep and the second look under `startMu` are left out,
-- since the flag that it looks at is then cleared. `ComputeGPULayers` is in floating point and an argument.
pub mod Processes
pub mod Context
mod Tests
use home_inference_server.Prelude.{
  ℕ, zero, suc, ◌+◌, ◌*◌, ◌-◌, ◌/◌, Bool, true, false, ◌&&◌, ◌||◌, not, Option, none, some, List,
  [], ◌∷◌, String, str_eq, if◌then◌else◌, ltb, leb, ◌==◌, length, keep_if,
}
use home_inference_server.Prelude.Int.{ℤ, pos, negsuc, ltb_ℤ}
use home_inference_server.Types.Model.{ModelDescriptor, weight_mb}
use home_inference_server.Vram.Layers.{scaled_kv_overhead_mb, gpu_resident_mb}
use home_inference_server.Pc.Api.{Message, Request}

pub record Engine : Type 0 where
  pub proc : Option ℕ
  -- The port of the base URL.
  pub base_url : ℕ
  pub ready : Bool
  pub restarting : Bool
  pub resident_mb : ℤ
  pub n_ctx : ℕ
  pub next_gpu_layers : Option ℤ
  pub next_needs_vision : Bool
  pub running_with_vision : Bool
  pub started : ℕ
  pub left_running : List ℕ

-- What `New` fixes. A port of 0 is the default.
pub record Settings : Type 0 where
  pub desc : ModelDescriptor
  pub port : ℕ
  pub max_parallel : ℤ
  pub compute_gpu_layers : ℤ → ℤ → ℤ

-- What one call meets: whether the subprocess is alive and answers the probe of its health, the reading of
-- the free memory, if there is a provider, and whether a new one starts.
pub record Chance : Type 0 where
  pub alive : Bool
  pub healthy : Bool
  pub available : Option (Option ℤ)
  pub starts : Bool

pub without : ℕ → List ℕ → List ℕ
without h hs = keep_if (λ g. not (g == h)) hs

-- `proc.Stop`, or the news that it has died.
pub gone : Option ℕ → Engine → Engine
unfolding without
gone none b = b
gone (some h) b = record b { left_running = without h b.left_running }

abbrev pub differs : Bool → Bool → Bool
differs true b = not b
differs false b = b

abbrev pub has_proc : Option ℕ → Bool
has_proc none = false
has_proc (some h) = true

-- A subprocess that has died by itself is no longer running.
observed : Chance → Engine → Engine
unfolding gone
observed ch b = if ch.alive then b else gone b.proc b

abbrev pub forgotten : Engine → Engine
forgotten b = record b { ready = false; proc = none }

-- The first look of `ensureRunning`: a URL that can be used, or a subprocess is to be started.
settled : Chance → Engine → Option ℕ × Engine
unfolding gone
settled ch b =
    if not b.ready
    then (none, b)
    else if differs b.running_with_vision b.next_needs_vision
    then (none, record (forgotten (gone b.proc b)) { resident_mb = pos 0 })
    else if not (has_proc b.proc && not ch.healthy)
    then (some b.base_url, b)
    else (none, forgotten b)

computed_layers : Settings → Bool → Option (Option ℤ) → ℤ
computed_layers cfg needs_vision (some (some avail)) =
    cfg.compute_gpu_layers (weight_mb cfg.desc needs_vision) avail
computed_layers cfg needs_vision (some none) = negsuc 0
computed_layers cfg needs_vision none = negsuc 0

chosen_layers : Settings → Chance → Engine → Option ℤ → ℤ
unfolding computed_layers
chosen_layers cfg ch b (some layers) = layers
chosen_layers cfg ch b none = computed_layers cfg b.next_needs_vision ch.available

resident_of : Settings → Bool → ℤ → ℤ
resident_of cfg needs_vision layers =
    gpu_resident_mb (weight_mb cfg.desc needs_vision)
      (scaled_kv_overhead_mb cfg.desc cfg.max_parallel needs_vision) layers cfg.desc.total_layers

abbrev port_of : Settings → ℕ
port_of cfg = if cfg.port == 0 then 8090 else cfg.port

-- `none`: the start has failed with `model_load_failed`.
spawned : Settings → Chance → Engine → Option ℕ × Engine
unfolding chosen_layers resident_of
spawned cfg ch b =
    if ch.starts
    then (
      some (port_of cfg),
      record b {
        proc = some b.started;
        base_url = port_of cfg;
        ready = true;
        running_with_vision = b.next_needs_vision;
        resident_mb =
            resident_of cfg b.next_needs_vision (chosen_layers cfg ch b b.next_gpu_layers);
        started = suc b.started;
        left_running = b.started ∷ b.left_running;
      },
    )
    else (none, b)

after_look : Settings → Chance → Option ℕ × Engine → Option ℕ × Engine
unfolding spawned
after_look cfg ch (some url, b) = (some url, b)
after_look cfg ch (none, b) = spawned cfg ch b

pub ensure_running : Settings → Chance → Engine → Option ℕ × Engine
unfolding observed settled after_look
ensure_running cfg ch b = after_look cfg ch (settled ch (observed ch b))

pub restart_subprocess : Settings → Chance → Engine → Option ℕ × Engine
unfolding gone
restart_subprocess cfg ch b =
    let again = ensure_running cfg ch (record (forgotten (gone b.proc b)) { restarting = true }) in
    (again.0, record again.1 { restarting = false })

-- `Shutdown` forgets the subprocess and then stops it.
pub shutdown : Engine → Engine
unfolding gone
shutdown b = record (forgotten (gone b.proc b)) { resident_mb = pos 0; n_ctx = 0 }

-- `ResidentMB`, which notices that the subprocess has died.
pub resident : Bool → Engine → ℤ × Engine
unfolding gone
resident alive b =
    if not b.ready || not (has_proc b.proc)
    then (pos 0, b)
    else if not alive
    then (pos 0, record (gone b.proc b) { ready = false; resident_mb = pos 0 })
    else (b.resident_mb, b)

-- `chatShape`.
abbrev chat_turn : String → String → Message
chat_turn role content = record {
  role = role;
  content = content;
  tool_calls = [];
  tool_call_id = "";
  name = "";
}

unfoldable pub chat_shape : Bool → Request → Request
chat_shape force_template req =
    if not (length req.messages == 0)
    then req
    else if length req.image_data == 0 && not force_template
    then req
    else if not (str_eq req.system_prompt "")
    then record req {
      messages = chat_turn "system" req.system_prompt ∷ chat_turn "user" req.prompt ∷ [];
    }
    else record req { messages = chat_turn "user" req.prompt ∷ [] }

-- `resolveChatMaxTokens`, from the context length and the count of the prompt's tokens, which may fail.
abbrev pub default_chat_max_tokens : ℕ
default_chat_max_tokens = 2_048

abbrev pub left_of : ℕ → ℕ → ℕ → ℕ
left_of n_ctx prompt_tokens messages = n_ctx - (prompt_tokens + 8 * messages) - n_ctx * 10 / 100

counted : ℕ → ℕ → Option ℕ → ℕ
counted messages n_ctx none = default_chat_max_tokens
counted messages n_ctx (some tokens) =
    if ltb (left_of n_ctx tokens messages) 1 then 1 else left_of n_ctx tokens messages

within_context : ℕ → Option ℕ → Option ℕ → ℕ
unfolding counted
within_context messages none tokens = default_chat_max_tokens
within_context messages (some n_ctx) tokens =
    if n_ctx == 0 then default_chat_max_tokens else counted messages n_ctx tokens

pub resolve_chat_max_tokens : Request → Option ℕ → Option ℕ → ℤ
unfolding within_context
resolve_chat_max_tokens req n_ctx tokens =
    if ltb_ℤ (pos 0) req.max_tokens
    then req.max_tokens
    else pos (within_context (length req.messages) n_ctx tokens)

-- What is done to a backend, one call after another.
pub data Op : Type 0 where
  sets_layers : ℤ → Op
  sets_vision : Bool → Op
  ensures : Chance → Op
  restarts : Chance → Op
  shuts_down : Op
  reads_resident : Bool → Op

unfoldable pub step : Settings → Op → Engine → Engine
step cfg (sets_layers n) b = record b { next_gpu_layers = some n }
step cfg (sets_vision v) b = record b { next_needs_vision = v }
step cfg (ensures ch) b = (ensure_running cfg ch b).1
step cfg (restarts ch) b = (restart_subprocess cfg ch b).1
step cfg shuts_down b = shutdown b
step cfg (reads_resident alive) b = (resident alive b).1

pub run : Settings → List Op → Engine → Engine
run cfg [] b = b
run cfg (op ∷ ops) b = run cfg ops (step cfg op b)
