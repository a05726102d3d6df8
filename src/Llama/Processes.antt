-- ===== src/Llama/Processes.antt =====
-- The backend owns at most one subprocess, and knows it.
use home_inference_server.Prelude.{ℕ, true, false, Option, none, some, [], ◌∷◌, ◌≡◌}
use home_inference_server.Llama.{
  Engine, Chance, Op, sets_layers, sets_vision, ensures, restarts, shuts_down, reads_resident,
}

-- Nothing is running, or just the subprocess that the backend holds.
pub data IsTidy (b : Engine) : Type 0 where
  idle : b.ready ≡ false → b.left_running ≡ [] → IsTidy b
  busy : (h : ℕ) → b.ready ≡ true → b.proc ≡ some h → b.left_running ≡ h ∷ [] → IsTidy b

-- The probe tells whether the subprocess is alive.
abbrev pub IsSound : Chance → Type 0
IsSound ch = ch.healthy ≡ ch.alive

-- What the first look leaves: a subprocess to use, or nothing running.
pub data Looked (o : Option ℕ × Engine) : Type 0 where
  usable :
      o.0 ≡ some o.1.base_url
      → o.1.running_with_vision ≡ o.1.next_needs_vision
      → o.1.ready ≡ true
      → IsTidy o.1
      → Looked o
  cleared : o.0 ≡ none → o.1.ready ≡ false → o.1.left_running ≡ [] → Looked o

-- What a call of `ensureRunning` comes to.
pub data Ensured (o : Option ℕ × Engine) : Type 0 where
  serves :
      o.0 ≡ some o.1.base_url
      → o.1.running_with_vision ≡ o.1.next_needs_vision
      → o.1.ready ≡ true
      → IsTidy o.1
      → Ensured o
  stays_down : o.0 ≡ none → o.1.ready ≡ false → IsTidy o.1 → Ensured o

abbrev pub IsSoundOp : Op → Type 0
IsSoundOp (sets_layers n) = Unit {0}
IsSoundOp (sets_vision v) = Unit {0}
IsSoundOp (ensures ch) = IsSound ch
IsSoundOp (restarts ch) = IsSound ch
IsSoundOp shuts_down = Unit {0}
IsSoundOp (reads_resident alive) = Unit {0}
