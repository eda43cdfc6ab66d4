-- ===== src/Demo.antt =====
-- seekserve-demo/src/main.cpp: the options, the local file's geometry, and the handlers that `main`
-- registers. The sleeping and printing are not modelled.
pub mod Local
pub mod Handlers
mod Tests
use seekserve.Common.{
  ℕ, Bool, true, false, not, ◌&&◌, ◌||◌, Option, none, some, List, [], ◌∷◌, if◌then◌else◌,
}
use seekserve.Common.Bytes.{Bytes, codes, bytes_eq, is_empty}

pub record Options : Type 0 where
  pub uri : Bytes
  pub save_path : Bytes
  pub log_level : Bytes
  pub local_file : Bytes

abbrev pub default_options : Options
default_options = record {
  uri = [];
  save_path = codes "./downloads";
  log_level = codes "info";
  local_file = [];
}

-- An argument that is no option with a value: `none` is the help, behind which the program ends.
abbrev pub plain_argument : Bytes → Options → Option Options
plain_argument arg o =
    if bytes_eq arg (codes "--help") || bytes_eq arg (codes "-h")
    then none
    else if is_empty o.uri
    then some (record o { uri = arg })
    else some o

-- The loop over the arguments. An option that is the last argument has no value, and is taken as a
-- plain argument.
unfoldable pub parse_options : List Bytes → Options → Option Options
unfolding bytes_eq
parse_options [] o = some o
parse_options (arg ∷ []) o = plain_argument arg o
parse_options (arg ∷ (value ∷ args)) o =
    let with_save_path = parse_options args (record o { save_path = value }) in
    let with_log_level = parse_options args (record o { log_level = value }) in
    let with_local_file = parse_options args (record o { local_file = value }) in
    let with_uri = parse_options (value ∷ args) (record o { uri = arg }) in
    let ignored = parse_options (value ∷ args) o in
    if bytes_eq arg (codes "--save-path")
    then with_save_path
    else if bytes_eq arg (codes "--log-level")
    then with_log_level
    else if bytes_eq arg (codes "--local-file")
    then with_local_file
    else if bytes_eq arg (codes "--help") || bytes_eq arg (codes "-h")
    then none
    else if is_empty o.uri
    then with_uri
    else ignored

-- What `main` goes on with: the usage and an exit code, the local file, or the torrent.
pub data Mode : Type 0 where
  usage : ℕ → Mode
  serves_local : Bytes → Bytes → Mode
  streams_torrent : Options → Mode

unfoldable pub mode_of : List Bytes → Mode
unfolding parse_options
mode_of [] = usage 1
mode_of (arg ∷ args) = elim (parse_options (arg ∷ args) default_options) [
  | none ↦ usage 0
  | some o ↦
      if not (is_empty o.local_file)
      then serves_local o.local_file o.log_level
      else if is_empty o.uri
      then usage 1
      else streams_torrent o
]
