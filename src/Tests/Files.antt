-- ===== src/Tests/Files.antt =====
-- Files that are sent to the server.
use smts.Prelude.{refl, String, Bool, false, ok, ◌≡◌, [], ◌∷◌, Result}
use smts.World.Objects.{text}
use smts.Config.Constant
use smts.Instances.{ends_with}
use smts.Client.{sent_name, send_file}
use smts.Client.Names.{is_word, send_file-loses_suffix}

abbrev any_file : Bool → String → Result String
any_file packed path = ok "(x)"

in_a_folder : sent_name "problems/v1.2/lift.smt2" ≡ "lift.smt2"
unfolding sent_name
in_a_folder = refl

send_file-loses_suffix_example :
    (name : String) × (send_file any_file "lift.mcmt.bz2"
      ≡ ok ((Constant.command, text Constant.solve) ∷ (Constant.name, text name) ∷ [], "(x)"))
    × (ends_with ".mcmt" name ≡ false)
    × (sent_name "lift.mcmt" ≡ "lift.mcmt")
unfolding is_word
send_file-loses_suffix_example = send_file-loses_suffix any_file "lift" "(x)" refl refl refl
