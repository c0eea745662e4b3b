-- ===== src/Tests.antt =====
-- Concrete configurations and states, for the tests of the children.
pub mod Routing
pub mod Anonymous
pub mod Clients
pub mod Pools
pub mod Stores
pub mod Talks
pub mod Requests
use Prim.Native.Nat.{ℕ}
use mathlib.Core.Bool.{false, true}
use mathlib.Core.List.{[], ◌∷◌}
use gemini_web2api_go.Accounts.{CookieAccount, Store, enabled_status}
use gemini_web2api_go.Base.Int.{int_eq, pos}
use gemini_web2api_go.Base.Tests.{nat_eq}
use gemini_web2api_go.Base.Text.{codes, text_eq}
use gemini_web2api_go.Config.{RuntimeConfig}
use gemini_web2api_go.Proxy.{Exits, Proxy, empty_exits}

abbrev pub strict_config : RuntimeConfig
strict_config = record {
  retry_attempts = pos 2;
  retry_delay_sec = pos 1;
  proxy_retry_attempts = pos 1;
  request_timeout = pos 60;
  default_model = codes "gemini-3.6-flash";
  per_ip_concurrent = pos 1;
  per_ip_rpm = pos 1;
  per_ip_rph = pos 2;
  retention_days = pos 7;
  log_requests = true;
  impersonate = codes "chrome";
  gemini_bl = codes "boq";
  proxy = [];
  proxy_pool_url = [];
  proxy_mode = codes "static_only";
  proxy_strategy = codes "sticky";
  proxy_cooldown_min = pos 5;
  fallback_direct = false;
  fallback_anon = false;
  gemini_bl_auto = false;
  max_prompt_bytes = pos 0;
  multi_turn = false;
  auto_delete_conversation = false;
  anon_first = true;
}

abbrev pub proxy_at : ℕ → ℕ → Proxy
proxy_at i fails = record {
  id = pos i;
  name = codes "p";
  url = codes "http://p";
  enabled = true;
  weight = pos 1;
  fail_count = fails;
  last_used = 0;
  last_error = [];
  created_at = 0;
}

-- A broken proxy before a sound one.
abbrev pub two_proxies : Exits
two_proxies = record empty_exits {
  cache = proxy_at 1 2 ∷ proxy_at 2 0 ∷ [];
  table = proxy_at 1 2 ∷ proxy_at 2 0 ∷ [];
}

abbrev pub account_at : ℕ → ℕ → ℕ → CookieAccount
account_at i fails used = record {
  id = pos i;
  label = [];
  cookie = codes "SAPISID=a; SIDCC=old";
  status = enabled_status;
  note = [];
  created_at = 0;
  last_used_at = used;
  last_ok_at = 0;
  last_error = [];
  fail_count = fails;
  proxy_id = pos 0;
}

abbrev pub two_accounts : Store
two_accounts = record {
  accounts = account_at 1 1 5 ∷ account_at 2 0 9 ∷ [];
  next_account = 3;
  kv = [];
}
