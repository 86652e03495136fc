-- ===== src/AgentClient/Thread.antt =====
-- `agentClient::agentClient` and the thread of `agentClient::startThread`, in src/agentClient.cpp.
use watched_back.Base.{
  ℕ, suc, ◌%◌, ◌^◌, String, Bool, true, false, not, ◌||◌, [], ltb, if◌then◌else◌, pos,
}
use watched_back.Monad.{M, pure, ◌>>=◌, ◌>>◌}
use watched_back.Json.{Jsoncpp}
use watched_back.DbTools.{release}
use watched_back.Ressource.Parse.{Manager}
use watched_back.HttpClient.{HttpClient}
use watched_back.AgentClient.{AgentClient}
use watched_back.AgentClient.Collect.{collect}
use watched_back.AgentClient.Api.{update_api}

abbrev no_client : HttpClient
no_client = record { ok = 0; failed = 0; parse = 0; use_ssl = false; base_url = "" }

module _ (J : Jsoncpp) where
  -- `agentClient::agentClient`. Until `init` the pointer to the HTTP client is null and `pool_freq`
  -- has no value; nothing reads them, since the client is not ready.
  abbrev pub new_agent : ℕ → ℕ → AgentClient J
  new_agent this id = record {
    address = this;
    id = id;
    ready = false;
    active = false;
    since = record { units = pos 0 };
    collect_count = 0;
    client = no_client;
    baseurl = "";
    api = J.null;
    pool_freq = 0;
    ressources = [];
  }

  -- `agentClient::startThread`: whether a thread is started.
  abbrev pub start_thread : AgentClient J → AgentClient J × Bool
  start_thread a =
      if not a.ready || a.active then (a, false) else (record a { active = true }, true)

  -- The body of the thread's loop, up to the sleep.
  unfoldable pub thread_round :
      Manager → J.Value → (String → Bool) → AgentClient J → M (AgentClient J)
  thread_round alert cfg exists a = do
    b ←
        if ltb 5 a.collect_count
        then (do u ← update_api J cfg exists a; pure (record u { collect_count = 0 }))
        else pure a
    c ← collect J alert cfg (record b { collect_count = suc b.collect_count % 2 ^ 16 })
    release c.address
    pure c
