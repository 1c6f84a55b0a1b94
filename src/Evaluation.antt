-- ===== src/Evaluation.antt =====
-- The evaluation scripts (server/sql2times.py, mk_scatter.py, mk_cactus.py): what was measured, and
-- all that the scripts do with a floating-point number.
pub mod Benchmarks
pub mod Cactus
pub mod Files
pub mod Scatter
pub mod Sources
use smts.Prelude.{ℕ, String, Bool, Option, List, Dict, Result, ℤ}

pub record Floats {ℓ} (F : Type ℓ) : Type ℓ where
  -- `float(text)`
  pub of_text : String → Result F
  pub of_int : ℤ → F
  pub add : F → F → F
  pub mul : F → F → F
  pub div : F → F → Result F
  -- `<`, `<=` and `==`
  pub less : F → F → Bool
  pub at_most : F → F → Bool
  pub same : F → F → Bool
  -- `0.01`
  pub hundredth : F
  -- `'%.02f' % x` and `'%f' % x`
  pub short : F → String
  pub long : F → String

-- `[status, time]`, or `[status, time, attribute]`
pub record Outcome (F : Type 0) : Type 0 where
  pub status : String
  pub time : F
  pub label : Option String

abbrev pub Outcomes : Type 0 → Type 0
Outcomes F = Dict String (Outcome F)
