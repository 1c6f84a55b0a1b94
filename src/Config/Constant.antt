-- ===== src/Config/Constant.antt =====
-- The keys and words of the messages (server/constant.py).
use smts.Prelude.{String}

abbrev pub solve : String
solve = "solve"

abbrev pub command : String
command = "command"

abbrev pub incremental : String
incremental = "incremental"

abbrev pub partition : String
partition = "partition"

abbrev pub partitions : String
partitions = "partitions"

abbrev pub solver : String
solver = "solver"

abbrev pub lemmas : String
lemmas = "lemmas"

abbrev pub query : String
query = "query"

abbrev pub max_memory : String
max_memory = "max_memory"

abbrev pub log_mode : String
log_mode = "enableLog"

abbrev pub lemma_amount : String
lemma_amount = "lemma_amount"

abbrev pub stop : String
stop = "stop"

abbrev pub terminate : String
terminate = "terminate"

abbrev pub lemma_push_min : String
lemma_push_min = "lemma_push_min"

abbrev pub lemma_pull_min : String
lemma_pull_min = "lemma_pull_min"

abbrev pub lemma_push_max : String
lemma_push_max = "lemma_push_max"

abbrev pub lemma_pull_max : String
lemma_pull_max = "lemma_pull_max"

abbrev pub check_sat : String
check_sat = "(check-sat)"

abbrev pub report : String
report = "report"

abbrev pub node : String
node = "node"

abbrev pub node_ : String
node_ = "node_"

abbrev pub name : String
name = "name"

abbrev pub eval : String
eval = "eval"
