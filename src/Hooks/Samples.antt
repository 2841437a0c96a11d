-- ===== src/Hooks/Samples.antt =====
-- A session in live mode with one Robinhood registry, where every check passes, and a placement in it.
use wheelta_robinhood_agent.Common.{true, false, none, some, List, [], ◌∷◌, Dict, ◌==◌}
use wheelta_robinhood_agent.Gating.{live, broker}
use wheelta_robinhood_agent.AccountScope.{Argument, text, login_scoped}
use wheelta_robinhood_agent.Hooks.{
  reads, orders, robinhood, place_order_tool, cancel_tool, quotes_tool, ToolRegistry, market,
  number, returned, issue, HookDeps, HookState,
}
use wheelta_robinhood_agent.Hooks.Gate.{open_gate}
use wheelta_robinhood_agent.Hooks.Resolve.{Caller, Decision}

abbrev pub registries : List ToolRegistry
registries =
    record {
      server = robinhood;
      tools =
          record { name = quotes_tool; tier = reads; live_order_tool = false }
          ∷ record { name = place_order_tool; tier = orders; live_order_tool = true }
          ∷ record { name = cancel_tool; tier = orders; live_order_tool = true }
          ∷ [];
    }
    ∷ []

-- A text is its only character.
abbrev pub deps : HookDeps
deps = record {
  effective_mode = live;
  kill_switch = false;
  writes_enabled = false;
  text_of = λ n. n ∷ [];
  workspace_prefix = [];
  is_account_key = λ k. k == 9;
  placeholder = 90;
  account_number = 91;
  rules = record {
    max_owned_watchlists = number 1;
    max_owned_scans = number 1;
    max_owned_alerts = number 1;
    max_items_per_owned_watchlist = number 1;
    max_mutations_per_run = number 1;
  };
  by_id = λ kind id. returned none;
  by_name = λ kind name. returned none;
  mutations_this_run = returned (some 0);
  owned_count = λ kind. returned (some 0);
  items_in = λ id. returned (some 0);
  registries = registries;
  role_of = λ agent_type. some market;
  role_tools = λ role name. true;
  account_scope_table = λ tool. some login_scoped;
  workspace_targets = λ tool. none;
  web_precheck = none;
  withheld = none;
  proxy_dispatch = some (λ server. true);
  mignon_limits = some (record { max_per_run = 2; max_concurrent = 1 });
  order_venue = some broker;
  output_gate = some open_gate;
  pretrade_gate = some (λ placement job self_in_flight. returned none);
  order_work = none;
  session_remaining = some 600;
  wind_down_seconds = 180;
  window_seconds = 120;
  parse_brief = λ brief. true;
  effective_input = λ tool input. some input;
  urls_of = λ input. [];
  url_key = λ url. url;
  append_rules_filters = λ input. some input;
  parse_work_request = λ input. issue 0;
}

abbrev pub start : HookState
start = record {
  calls = [];
  spawned = 0;
  active = [];
  mignon_urls = [];
  refused_urls = [];
  stop = none;
  log = [];
}

abbrev pub caller : Caller
caller = record { agent_id = none; agent_type = none }

abbrev pub order : Dict Argument
order = record { key = 8; value = text 80 } ∷ []

abbrev pub placing : Decision
placing = record { tier = orders; effective = order; upstream = none }
