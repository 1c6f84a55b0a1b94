-- ===== src/Config.antt =====
-- The settings (server/config) and the message keys (server/constant.py).
pub mod Constant
pub mod Extension
pub mod Parameters
pub mod Startup
use smts.Prelude.{ℕ, String, Bool, true, false, Option, none, some, List, [], ◌∷◌, ℤ, pos}

-- The settings that the modelled code reads or writes. A number that is used as a switch is off at 0.
pub record Config : Type 0 where
  pub portfolio_min : ℕ
  pub partition_timeout : Option ℕ
  pub node_timeout : Option ℕ
  pub partition_policy : List ℕ
  pub solving_timeout : Option ℕ
  pub max_memory : ℕ
  pub lemma_amount : ℕ
  pub fixedpoint_partition : Bool
  pub idle_quit : Bool
  pub enable_log : Bool
  pub lemma_push_timeout_min : ℕ
  pub lemma_push_timeout_max : ℕ
  pub lemma_pull_timeout_min : ℕ
  pub lemma_pull_timeout_max : ℕ
  pub partition_count : ℤ

-- The values of server/config/default.py.
abbrev pub default_config : Config
default_config = record {
  portfolio_min = 1;
  partition_timeout = some 10;
  node_timeout = none;
  partition_policy = 1 ∷ 2 ∷ [];
  solving_timeout = some 2000;
  max_memory = 10000;
  lemma_amount = 1000;
  fixedpoint_partition = false;
  idle_quit = true;
  enable_log = false;
  lemma_push_timeout_min = 15000;
  lemma_push_timeout_max = 30000;
  lemma_pull_timeout_min = 20000;
  lemma_pull_timeout_max = 40000;
  partition_count = pos 0;
}
