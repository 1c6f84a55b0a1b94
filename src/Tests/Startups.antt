-- ===== src/Tests/Startups.antt =====
-- The settings with a small configuration file, and the main program with two solvers and a lemma server.
use smts.Instances.{ends_with}
use smts.Config.Extension.{
  Setting, a_text, a_dict, another, extend, merge, begins_with, path_parts, in_directory,
}
use smts.Config.Extension.Merged.{all_merge, merged}
use smts.Config.Extension.Paths.{extend-placed}
use smts.Prelude.{
  refl, Error, ℕ, String, Dict, [], ◌∷◌, lookup, string_key, key_error, line, true, false, ◌||◌,
  none, some, List, ◌++◌, filter_by, ok, err, system_exit, ◌≡◌,
}
use smts.Config.{default_config}
use smts.Config.Startup.{
  Arguments, Settings, Start, configure, given_number, lacks_database, start_up,
}
use smts.Config.Startup.Ports.{all_on, programs, copies, start_up-all_on}

abbrev default_settings : Settings
default_settings = record {
  config = default_config;
  port = 3000;
  db_path = none;
  build_path = "../../build";
  print_filename = false;
  print_runtime = false;
  gui = false;
  lemma_db_path = false;
  lemma_resend = false;
  opensmt = 0;
  z3spacer = 0;
  sally = 0;
}

-- `-o 2 -l -D -d runs/events.db -pn 4000`
abbrev two_opensmt : Arguments
two_opensmt = record {
  is_list = false;
  db_path = some "runs/events.db";
  file_paths = none;
  gui = false;
  print_filename = false;
  print_runtime = false;
  log_mode = false;
  partition_timeout = none;
  node_timeout = none;
  partitioning = false;
  lemma_sharing = true;
  lemma_db = true;
  lemma_resend = false;
  opensmt = some 2;
  z3spacer = none;
  sally = none;
  port = some 4000;
}

start_up-all_on_example :
    ((configure two_opensmt default_settings).port ≡ 4000)
    × (false ≡ false → (configure two_opensmt default_settings).config.partition_timeout ≡ none)
    × ((false || lacks_database (configure two_opensmt default_settings)) ≡ true
        → start_up two_opensmt default_settings ≡ err system_exit)
    × ((false || lacks_database (configure two_opensmt default_settings)) ≡ false
        → (starts : List Start) × (start_up two_opensmt default_settings ≡ ok starts)
          × (all_on 4000 starts ≡ true)
          × (programs starts
              ≡ "../../build/lemma_server" ∷ "../../build/solver_opensmt"
                ∷ "../../build/solver_opensmt" ∷ []))
unfolding given_number copies line
start_up-all_on_example = start_up-all_on two_opensmt default_settings

-- Settings, and a file that changes a path and one of the parameters
abbrev old_settings : Dict String (Setting ℕ)
old_settings =
    ("parameters", a_dict (("OpenSMT2.seed", 1) ∷ ("OpenSMT2.split-type", 2) ∷ []))
    ∷ ("port", another 3000)
    ∷ []

abbrev small_file : Dict String (Setting ℕ)
small_file =
    ("__name__", a_text "config")
    ∷ ("build_path", a_text "build")
    ∷ ("parameters", a_dict (("OpenSMT2.seed", 7) ∷ []))
    ∷ []

-- A dict with a new name
abbrev new_dict : Dict String (Setting ℕ)
new_dict = ("weights", a_dict []) ∷ []

new_dict_fails : extend "/etc" new_dict old_settings ≡ err key_error
unfolding extend merge
new_dict_fails = refl

small_file_merges : all_merge "/etc" small_file old_settings ≡ true
unfolding all_merge
small_file_merges = refl

extend-placed_example :
    (all_merge "/etc" small_file old_settings ≡ true
      → (after : Dict String (Setting ℕ)) × (extend "/etc" small_file old_settings ≡ ok after)
        × ((k : String) → lookup k after ≡ merged "/etc" small_file old_settings k)
        × ((k s : String)
            → lookup k small_file ≡ some (a_text s)
            → begins_with b'_' k ≡ false
            → ends_with "_path" k ≡ true
            → (t : String) × (lookup k after ≡ some (a_text t))
              × ((begins_with b'/' s ≡ true → t ≡ s)
                  × (begins_with b'/' s ≡ false
                      → path_parts t ≡ path_parts "/etc" ++ path_parts s))))
    × (all_merge "/etc" small_file old_settings ≡ false
        → (e : Error) × (extend "/etc" small_file old_settings ≡ err e))
unfolding lookup
extend-placed_example = extend-placed "/etc" small_file old_settings (refl, (refl, (refl, tt)))

-- Dots and further slashes are left out.
placed_below : in_directory "/etc" "./build//bin/" ≡ "/etc/build/bin"
unfolding in_directory filter_by
placed_below = refl
