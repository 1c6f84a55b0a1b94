-- ===== src/Server/Reports.antt =====
-- What the reports of solvers and of the lemma server lead to.
use Prim.Native.Char.{code}
use smts.Prelude.{
  ◌-◌, String, Bool, true, false, ◌&&◌, ◌||◌, Option, none, some, ◌==◌, leb, if◌then◌else◌, Result,
  ok, err, attribute_error, key_error, value_error, system_exit, string_key,
}
use smts.Tree.Defs.{update}
use smts.World.Effects.{Exec, modify}
use smts.World.Objects.{Value, text}
use smts.Server.{Server}

-- `message.split(':', 1)[0]`, if there is a colon
unfoldable pub level_name : String → Option String
level_name String.[] = none
level_name (String.◌∷◌ c s) =
    let rest = level_name s in
    if code c == b':'
    then some ""
    else elim rest [ none ↦ none | some front ↦ some (String.◌∷◌ c front) ]

-- `level.upper() == word`, for a word of capital letters
unfoldable pub is_upper : String → String → Bool
is_upper String.[] String.[] = true
is_upper (String.◌∷◌ c s) (String.◌∷◌ d word) =
    let capital = if leb b'a' (code c) && leb (code c) b'z' then code c - 32 else code c in
    capital == code d && is_upper s word
is_upper _ _ = false

-- `logging._nameToLevel[level.upper()]` is there.
unfoldable pub is_level : String → Bool
unfolding is_upper
is_level s =
    is_upper s "CRITICAL"
    || is_upper s "FATAL"
    || is_upper s "ERROR"
    || is_upper s "WARN"
    || is_upper s "WARNING"
    || is_upper s "INFO"
    || is_upper s "DEBUG"
    || is_upper s "NOTSET"

-- Whether a report of a solver is an error; a report without a level, or with another one, is none.
unfoldable pub is_error : Option Value → Bool
unfolding level_name is_upper
is_error (some (text message)) = elim (level_name message) [
  | none ↦ false
  | some level ↦ is_upper level "ERROR"
]
is_error _ = false

-- An error that a solver reports: the current instance is out of time. The call of `exit` behind that,
-- and the AttributeError without a current instance, end in the bare `except`.
unfoldable pub note_error : Exec Server (Unit {0})
note_error = modify λ s. elim s.current [
  | none ↦ s
  | some k ↦ record s {
    instances = update s.instances k (record (s.instances k) { timeout = some 0 });
  }
]

-- A report of the lemma server: what is no level raises, and an error ends the process.
unfoldable pub check_lemma_report : Option Value → Result (Unit {0})
unfolding level_name is_level is_upper
check_lemma_report none = ok tt
check_lemma_report (some (text message)) = elim (level_name message) [
  | none ↦ err value_error
  | some level ↦
      if is_level level
      then if is_upper level "ERROR" then err system_exit else ok tt
      else err key_error
]
check_lemma_report (some _) = err attribute_error
