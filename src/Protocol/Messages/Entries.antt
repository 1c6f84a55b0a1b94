-- ===== src/Protocol/Messages/Entries.antt =====
-- Which command has which entries, in the messages that the methods of `Solver` send.
use smts.Prelude.{
  ◌≡◌, Bool, true, false, ◌&&◌, ◌||◌, Option, none, some, if◌then◌else◌, Memᴰ, lookup, string_key,
}
use package.text.Mathlib.Text.{◌==◌ as str_eq}
use smts.World.Objects.{Value, text, number, path, Header, Message, World}
use smts.Config.Constant

abbrev pub is_text : Option Value → Bool
is_text (some (text s)) = true
is_text _ = false

abbrev pub is_number : Option Value → Bool
is_number (some (number n)) = true
is_number _ = false

abbrev pub is_path : Option Value → Bool
is_path (some (path p)) = true
is_path _ = false

-- The name of the instance and the path of the node
abbrev pub names_node : Header → Bool
names_node h = is_text (lookup Constant.name h) && is_path (lookup Constant.node h)

abbrev pub has_times : Header → Bool
has_times h =
    is_number (lookup Constant.lemma_push_min h)
    && (is_number (lookup Constant.lemma_pull_min h)
        && (is_number (lookup Constant.lemma_push_max h)
            && is_number (lookup Constant.lemma_pull_max h)))

-- The entries that belong to a command
abbrev pub fits : Option Value → Header → Bool
fits none h = is_number (lookup Constant.log_mode h)
fits (some (text c)) h =
    if str_eq c Constant.solve
    then names_node h
      && (is_text (lookup Constant.query h) && is_number (lookup Constant.max_memory h))
    else if str_eq c Constant.incremental
    then names_node h && (is_path (lookup Constant.node_ h) && is_text (lookup Constant.query h))
    else if str_eq c Constant.partition
    then names_node h
      && (is_text (lookup Constant.query h) && is_number (lookup Constant.partitions h))
    else if str_eq c Constant.lemmas
    then is_text (lookup Constant.lemmas h) && has_times h
    else (str_eq c Constant.stop || str_eq c Constant.terminate) && names_node h
fits _ h = false

-- A message of the protocol: it fits its command, and the greeting has none.
unfoldable pub is_typed : Header → Bool
unfolding lookup
is_typed h = fits (lookup Constant.command h) h

abbrev pub AllTyped : World → Type 0
AllTyped w = (m : Message) → Memᴰ m w.sent → is_typed m.header ≡ true
