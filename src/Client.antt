-- ===== src/Client.antt =====
-- `send_files` and `send_file` (server/utils.py), by which files go to the server. What a path
-- holds is an argument; a path has the separator `/` and no empty part at its end.
pub mod Names
use Prim.Native.Char.{code}
use package.text.Mathlib.Text.{◌==◌ as str_eq}
use smts.Prelude.{
  ℕ, String, Bool, true, false, not, ◌&&◌, ◌||◌, Option, none, some, List, [], ◌∷◌, ◌==◌,
  if◌then◌else◌, Result, ok, err, is_empty,
}
use smts.World.Objects.{text, Header}
use smts.Config.Constant

unfoldable pub has_slash : String → Bool
has_slash String.[] = false
has_slash (String.◌∷◌ c s) = code c == b'/' || has_slash s

-- `Path(path).name`
unfoldable pub base_name : String → String
unfolding has_slash
base_name String.[] = ""
base_name (String.◌∷◌ c s) =
    let rest = base_name s in
    if has_slash s then rest else if code c == b'/' then s else String.◌∷◌ c s

-- A path up to its last slash, where `path.parent / name` has the name
unfoldable pub front_of : String → String
unfolding has_slash
front_of String.[] = ""
front_of (String.◌∷◌ c s) =
    let rest = front_of s in
    if has_slash s then String.◌∷◌ c rest else if code c == b'/' then String.◌∷◌ c String.[] else ""

-- `name.rfind('.')`: what stands before the last dot, and the rest from there.
unfoldable pub last_dot : String → Option (String × String)
last_dot String.[] = none
last_dot (String.◌∷◌ c s) = elim (last_dot s) [
  | some (front, end) ↦ some (String.◌∷◌ c front, end)
  | none ↦ if code c == b'.' then some ("", String.◌∷◌ c s) else none
]

-- `stem` and `suffix` of a name: a dot at either end starts no suffix.
unfoldable pub split_suffix : String → String × String
unfolding last_dot
split_suffix name = elim (last_dot name) [
  | none ↦ (name, "")
  | some (front, end) ↦ if is_empty front || str_eq end "." then (name, "") else (front, end)
]

abbrev pub stem : String → String
stem path = (split_suffix (base_name path)).0

abbrev pub suffix : String → String
suffix path = (split_suffix (base_name path)).1

-- The name under which a file is sent
unfoldable pub sent_name : String → String
unfolding base_name split_suffix
sent_name path = if str_eq (suffix path) ".bz2" then stem (stem path) else base_name path

-- What `send_file` writes. `read` opens a file, a compressed one or a plain one.
unfoldable pub send_file : (Bool → String → Result String) → String → Result (Header × String)
unfolding sent_name
send_file read path = elim (read (str_eq (suffix path) ".bz2") path) [
  | err e ↦ err e
  | ok content ↦ ok (
    (Constant.command, text Constant.solve) ∷ (Constant.name, text (sent_name path)) ∷ [],
    content,
  )
]

-- `files.split(',')`
unfoldable pub split_comma : String → List String
split_comma String.[] = "" ∷ []
split_comma (String.◌∷◌ c s) = elim (split_comma s) [
  | [] ↦ []
  | part ∷ parts ↦ if code c == b',' then "" ∷ part ∷ parts else String.◌∷◌ c part ∷ parts
]

-- The loop of `send_files`: a file that cannot be sent is passed over.
unfoldable pub send_all : (Bool → String → Result String) → List String → List (Header × String)
unfolding send_file
send_all read [] = []
send_all read (p ∷ paths) = elim (send_file read p) [
  | err e ↦ send_all read paths
  | ok m ↦ m ∷ send_all read paths
]

unfoldable pub send_files : (Bool → String → Result String) → String → List (Header × String)
unfolding split_comma send_all
send_files read files = send_all read (split_comma files)
