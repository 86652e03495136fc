-- ===== src/AgentClient.antt =====
-- `agentClient` of src/agentClient.cpp: the client of one agent.
pub mod Service
pub mod Collect
pub mod Counter
pub mod Keeps
pub mod Status
pub mod Effects
pub mod Stored
pub mod Paths
pub mod Ressources
pub mod Growth
pub mod Tables
pub mod Schema
pub mod Api
pub mod Current
pub mod Naming
pub mod Thread
pub mod Offline
pub mod Running
mod Tests
mod PathTests
use watched_back.Base.{ℕ, String, Bool, List}
use watched_back.Double.{Double}
use watched_back.Json.{Jsoncpp}
use watched_back.Ressource.{Ressource, State}
use watched_back.HttpClient.{HttpClient}

-- The fields; `address` is that of the object, whose connection `World.conn` has.
pub record AgentClient (J : Jsoncpp) : Type 0 where
  pub address : ℕ
  pub id : ℕ
  pub ready : Bool
  pub active : Bool
  pub since : Double
  pub collect_count : ℕ
  pub client : HttpClient
  pub baseurl : String
  pub api : J.Value
  pub pool_freq : ℕ
  pub ressources : List (Ressource × State)
