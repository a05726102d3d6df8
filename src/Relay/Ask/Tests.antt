-- ===== src/Relay/Ask/Tests.antt =====
-- A site with one place for questions, and its visitors.
use home_inference_server.Prelude.{
  true, false, none, some, [], ◌∷◌, ◌≡◌, refl, str_eq, if◌then◌else◌,
}
use home_inference_server.Relay.Jobs.{enqueue}
use home_inference_server.Relay.Gate.{is_app_key}
use home_inference_server.Relay.Server.{Body, decoded, usage_today, online}
use home_inference_server.Relay.Ask.{
  Spec, running_of, acquire, AskRequest, app, unknown, Scene, Desk, waits, ask_begin, ask_end,
  no_result, contains, all_short, is_valid_ask,
}
use home_inference_server.Relay.Visitors.{
  Limits, allow, of_today, swept, entry_of, set_entry, current, asked, daily, one_more,
}
use home_inference_server.Relay.Visitors.Quotas.{Allows, Unique, allow-Allows}
use home_inference_server.Relay.Ask.Places.{SameRunning, Placed}
use home_inference_server.Relay.Ask.Rounds.{ask_begin-Placed, ask_end-SameRunning}

abbrev limits : Limits
limits = record {
  max_input_chars = 400;
  max_history = 3;
  max_history_chars = 200;
  visitor_per_day = 2;
  hosted_visitor_per_day = 1;
  per_min = 20;
  per_day = 300;
  max_concurrent = 1;
}

abbrev site : Spec
site = record {
  id = "site";
  origins = "https://a.example" ∷ [];
  knowledge_url = "";
  limits = limits;
}

abbrev scene : Scene
scene = record {
  moment = record {
    now = 1000;
    db_now = 1000;
    today = 1;
    new_id = "j1";
    json_valid = λ _. true;
    outage = record { reads = false; writes = false; claims = false; counter = false };
  };
  method = "POST";
  origin = "https://a.example";
  has_fallback = false;
  lookup = λ k. if str_eq k "pk_1" then app site else unknown;
  visitor_key = λ id. id;
  bucket = true;
  knowledge = λ _. true;
  allow_at = λ _ _. true;
  trim_space = λ t. t;
  usage_fails = false;
  insert_fails = false;
  count_fails = false;
}

abbrev desk : Desk
desk = record {
  relay = record { jobs = []; usage = []; oldest = none; last_seen = some 900 };
  visitors = record {
    seen = record { key = "site"; day = 1; pc = 1; hosted = 0 } ∷ [];
    last_sweep = 0;
  };
  running = [];
}

abbrev question : Body AskRequest
question = decoded (record { key = "pk_1"; input = "What do you do?"; history = [] })

asked_and_waits : (ask_begin scene "{}" question desk).0 ≡ waits site "j1" 0
unfolding ask_begin is_app_key online contains is_valid_ask all_short allow swept of_today entry_of
    set_entry current asked daily one_more acquire running_of usage_today enqueue
asked_and_waits = refl

one_entry : Unique desk.visitors.seen
unfolding entry_of
one_entry = (refl, tt)

allow-Allows_example :
    Allows "site" 1 false limits desk.visitors
      (allow "site" limits false 700_000 1 true desk.visitors)
allow-Allows_example = allow-Allows "site" limits false 700_000 1 true desk.visitors one_entry

ask_begin-Placed_example : Placed scene [] desk.relay (ask_begin scene "{}" question desk)
ask_begin-Placed_example = ask_begin-Placed scene "{}" question desk

ask_end-SameRunning_example :
    SameRunning []
      (ask_end
        (λ t. t)
        site
        "j1"
        0
        (no_result false)
        (ask_begin scene "{}" question desk).1).1.running
ask_end-SameRunning_example =
    ask_end-SameRunning scene "{}" question desk (ask_begin scene "{}" question desk).1 site "j1" 0
      (λ t. t) (no_result false) asked_and_waits refl
