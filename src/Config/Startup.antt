-- ===== src/Config/Startup.antt =====
-- The main program server/smts.py: the options of the command line put into the settings, and what is
-- started, with `run_lemma_server` and `run_solvers` (server/utils.py). Configuration files, the event
-- database and the listing of the settings are left out, and a process that cannot be started too.
pub mod Ports
use smts.Prelude.{
  ◌+◌, ℕ, zero, suc, String, Bool, true, false, not, ◌||◌, ◌&&◌, Option, none, some, List, [], ◌∷◌,
  ◌++◌, ◌==◌, Result, ok, err, system_exit, if◌then◌else◌, is_empty, show_nat, line, nonempty,
}
use smts.Client.{front_of, stem}
use smts.Config.{Config}

-- The options. A flag is a Boolean, and an option that was not given is none.
pub record Arguments : Type 0 where
  pub is_list : Bool
  pub db_path : Option String
  pub file_paths : Option String
  pub gui : Bool
  pub print_filename : Bool
  pub print_runtime : Bool
  pub log_mode : Bool
  pub partition_timeout : Option ℕ
  pub node_timeout : Option ℕ
  pub partitioning : Bool
  pub lemma_sharing : Bool
  pub lemma_db : Bool
  pub lemma_resend : Bool
  pub opensmt : Option ℕ
  pub z3spacer : Option ℕ
  pub sally : Option ℕ
  pub port : Option ℕ

-- The settings that the main program reads or changes; `lemma_db_path` is only tested.
pub record Settings : Type 0 where
  pub config : Config
  pub port : ℕ
  pub db_path : Option String
  pub build_path : String
  pub print_filename : Bool
  pub print_runtime : Bool
  pub gui : Bool
  pub lemma_db_path : Bool
  pub lemma_resend : Bool
  pub opensmt : ℕ
  pub z3spacer : ℕ
  pub sally : ℕ

-- `if args.x: settings.x = args.x`, for a number
unfoldable pub given_number : Option ℕ → ℕ → ℕ
given_number none old = old
given_number (some n) old = if n == 0 then old else n

-- The same for a number that may be missing
unfoldable pub given_limit : Option ℕ → Option ℕ → Option ℕ
given_limit none old = old
given_limit (some n) old = if n == 0 then old else some n

-- And for a text
unfoldable pub given_text : Option String → Option String → Option String
given_text none old = old
given_text (some s) old = if is_empty s then old else some s

-- The options put into the settings
unfoldable pub configure : Arguments → Settings → Settings
unfolding given_number given_limit given_text
configure a s = record {
  config = record s.config {
    partition_timeout =
        if a.partitioning then given_limit a.partition_timeout s.config.partition_timeout else none;
    node_timeout = given_limit a.node_timeout s.config.node_timeout;
    enable_log = a.log_mode || s.config.enable_log;
  };
  port = given_number a.port s.port;
  db_path = given_text a.db_path s.db_path;
  build_path = s.build_path;
  print_filename = a.print_filename || s.print_filename;
  print_runtime = a.print_runtime || s.print_runtime;
  gui = a.gui || s.gui;
  lemma_db_path = a.lemma_db || s.lemma_db_path;
  lemma_resend = a.lemma_resend || s.lemma_resend;
  opensmt = given_number a.opensmt s.opensmt;
  z3spacer = given_number a.z3spacer s.z3spacer;
  sally = given_number a.sally s.sally;
}

-- What is started, in its order: the server, the page in the browser, a process with its arguments, and
-- the thread that sends the files
pub data Start : Type 0 where
  server : ℕ → Start
  page : ℕ → Start
  process : List String → Start
  sender : String → ℕ → Start

-- `'127.0.0.1:' + str(port)`
unfoldable pub local_address : ℕ → String
unfolding show_nat line
local_address port = line ("127.0.0.1:" ∷ show_nat port ∷ [])

-- `if database`
unfoldable pub set_text : Option String → Option String
set_text none = none
set_text (some s) = if is_empty s then none else some s

-- The options of the lemma server that may be missing
unfoldable pub lemma_server_options : Option String → Bool → List String
unfolding front_of line set_text
lemma_server_options database send_again =
    elim (set_text database) [
      | none ↦ []
      | some path ↦ "-d" ∷ line (front_of path ∷ stem path ∷ ".lemma.db" ∷ []) ∷ []
    ]
    ++ (if send_again then "-a" ∷ [] else [])

-- `run_lemma_server`
unfoldable pub lemma_server_arguments : String → Option String → Bool → ℕ → List String
unfolding local_address show_nat lemma_server_options
lemma_server_arguments program database send_again port =
    program
    ∷ "-s"
    ∷ local_address port
    ∷ "-p"
    ∷ show_nat (port + 2000)
    ∷ lemma_server_options database send_again

-- `run_solvers`, for one of the programs
unfoldable pub run_solvers : String → ℕ → ℕ → List Start
unfolding local_address line
run_solvers program zero port = []
run_solvers program (suc n) port =
    process (program ∷ line ("-s" ∷ local_address port ∷ []) ∷ []) ∷ run_solvers program n port

-- The page needs a database.
unfoldable pub lacks_database : Settings → Bool
unfolding set_text
lacks_database c = c.gui && elim (set_text c.db_path) [ none ↦ true | some path ↦ false ]

unfoldable pub page_of : Settings → List Start
page_of c = if c.gui then page c.port ∷ [] else []

unfoldable pub lemma_server_of : Bool → Settings → List Start
unfolding lemma_server_arguments line
lemma_server_of lemma_sharing c =
    if lemma_sharing
    then process (
        lemma_server_arguments (line (c.build_path ∷ "/lemma_server" ∷ []))
          (if c.lemma_db_path then c.db_path else none) c.lemma_resend c.port)
      ∷ []
    else []

unfoldable pub solvers_of : Settings → List Start
unfolding run_solvers line
solvers_of c =
    run_solvers (line (c.build_path ∷ "/solver_opensmt" ∷ [])) c.opensmt c.port
    ++ (run_solvers (line (c.build_path ∷ "/solver_z3spacer" ∷ [])) c.z3spacer c.port
        ++ run_solvers (line (c.build_path ∷ "/solver_sally" ∷ [])) c.sally c.port)

unfoldable pub sender_of : Option String → Settings → List Start
unfolding set_text
sender_of files c = elim (set_text files) [ none ↦ [] | some paths ↦ sender paths c.port ∷ [] ]

-- The main program, up to the event loop
unfoldable pub start_up : Arguments → Settings → Result (List Start)
unfolding configure lacks_database page_of lemma_server_of solvers_of sender_of
start_up a s =
    let c = configure a s in
    if a.is_list || lacks_database c
    then err system_exit
    else ok (
        server c.port
        ∷ (page_of c
            ++ (lemma_server_of a.lemma_sharing c ++ (solvers_of c ++ sender_of a.file_paths c))))
