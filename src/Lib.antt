-- ===== src/Lib.antt =====
-- home-inference-server: a server that runs language models on one home PC, and the relay that passes
-- jobs to it.
--
-- The PC side keeps at most one model loaded on the graphics card. A request comes to the VRAM-aware
-- backend (internal/backend/vram), which reads the free memory, picks a tier of the roster, loads it,
-- and evicts it again when it is idle or memory runs short. Its HTTP server (internal/server) checks and
-- translates requests, and its worker (internal/remote) takes the relay's jobs. The relay side
-- (internal/railwayq) keeps a table of jobs: callers enqueue and poll, the PC claims and acks, and a
-- sweeper purges what is old. Public apps (internal/apps) put their visitors' questions into that table.
--
-- Files and what they model:
--   Prelude, Prelude/Tests, Prelude/Lists, Prelude/Int: shared names; Boolean tests on the native
--     numbers; int64 with its wrap-around, as the integers reduced to two's complement.
--   Types/Model: types/model.go. The fields of ModelDescriptor that no decision reads are left out.
--   Vram/Layers: internal/backend/vram/layers.go (FitLayers, ScaledKVOverheadMB, GPUResidentMB) and the
--     two fit tests of vram.go. ComputeGPULayers is in floating point and left out.
--   Vram/Backend: the state of Backend in vram.go with New, loadModel, evictLocked, waitForVRAMReclaim.
--   Vram/Backend/Choose and Vram/Backend/Load: selectAndLoad, its choice and the loading around it.
--   Vram/Backend/Request: selectInner, Infer, the speed floor, the OOM cascade, detectContention.
--   Vram/Eviction: a tick of runEviction in eviction.go.
--   Relay/Sql: the SQL statements used, over a list of rows. Relay/Jobs: internal/railwayq/store.go.
--   Relay/Sweeper: internal/railwayq/ttl.go and the finish tracker of wake.go.
--   Relay/Gate: internal/railwayq/auth.go, the middleware before every handler.
--   Relay/Server: internal/railwayq/handler.go, the usage counters and the presence of the PC;
--     Relay/Server/Refinement joins the handlers as server.go does.
--   Relay/Visitors and Relay/Ask: internal/railwayq/ask.go.
--   Pipeline/Router: internal/router/router.go. Pipeline/Flow: internal/batcher/batcher.go and
--     internal/dispatcher/dispatcher.go, joined as in cmd/server/main.go.
--   Chat/Store: internal/chatstore/chatstore.go.
--   Llama: internal/backend/llamacpp/backend.go: its subprocess, the chat's shape and token limit.
--   Pc/Api: api/request.go, api/response.go and the messages of backend/backend.go.
--   Pc/Infer, Pc/Jobs, Pc/Tools: internal/server/server.go and server_tools.go: handleInfer with its
--     checks and translation, the blocking path, the deferral, the history, the tools' round trip.
--   Pc/Worker: internal/remote/client.go. Pc/Admin: internal/server/admin.go and middleware.go, the routes
--     of ServeHTTP, and the mux and the middleware of cmd/server/main.go around them.
--   Logs: internal/logbuf/logbuf.go and handleLogs.
--   Apps/Spec, Apps/Knowledge, Apps/Prompt, Apps/Retrieve: the files of the same names in internal/apps.
-- Each folder's other files hold its theorems, and Tests its concrete runs.
--
-- How state is modelled: the VRAM backend's fields are the record State. What lies outside is the
-- record World (the free memory and the clock at the n-th observation, the measured token rates, the
-- outcome of an inference) and the record Options (the OOM hook). Calls to the inner backends are
-- recorded as a list of effects in State. One request is modelled as running alone through
-- selectAndLoad, which holds loadMu; the eviction loop lets other goroutines change the state where it
-- releases the mutex. The relay's statements are functions on the table; Step is their interleaving, and
-- the handlers are shown to be sequences of steps. The pipeline's goroutines are events on one state. On
-- the PC's server, what the surroundings answer to one request is the record Scene, what they answer to
-- one job of the relay the record Work, and one round of the worker's loop takes a Turn; a model that is
-- asked twice is a function of what it was asked before. The admin state is the record Controls, and the
-- requests and the worker's rounds are events on it.
--
-- Fuel: the poll after an eviction takes as many rounds as the wait has intervals, and stops as the
-- code's deadline does; the search for a smaller vision tier and the loops of selectInner and Infer
-- take the length of the roster, which is the code's own bound; the retries of an ack take the code's
-- number of attempts.
--
-- Not modelled: the SQL driver, the verifier and the token buckets, net and url parsing, base64 and JSON
-- (what they answer is a parameter); the cleaning of answers, which rests on regular expressions; the
-- process control and HTTP code of internal/backend/llamacpp; streaming, /status, /describe and
-- /tokenize; NVML, logging and metrics.
pub mod Apps
pub mod Chat
pub mod Llama
pub mod Logs
pub mod Pc
pub mod Pipeline
pub mod Prelude
pub mod Relay
pub mod Types
pub mod Vram
