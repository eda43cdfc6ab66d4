-- ===== src/Capi/Settings.antt =====
-- seekserve_c.cpp: `parse_config`, from the parsed JSON to the engine's configuration. The members are read
-- in the order of the source; the first one that is of another type throws, and ends the reading.
use seekserve.Common.{
  ℕ, ◌+◌, ◌-◌, ◌%◌, ◌^◌, ◌++◌, Bool, true, false, Option, none, some, List, [], ◌∷◌, if◌then◌else◌,
}
use seekserve.Common.Int.{ℤ, pos, negsuc}
use seekserve.Common.Bytes.{Bytes, codes, bytes_eq, is_empty}

-- A member of the configuration's object.
pub data Member : Type 0 where
  absent : Member
  text : Bytes → Member
  flag : Bool → Member
  -- A number, cut to an integer.
  number : ℤ → Member
  null : Member
  -- The elements of an array, or the values of an object: `none` is one that is no text.
  items : List (Option Bytes) → Member

-- The parsed text, a value without members being one where all are absent; `none` does not parse.
abbrev pub ConfigJson : Type 0
ConfigJson = Option (Bytes → Member)

pub data LogLevel : Type 0 where
  info debug warn error : LogLevel

-- What `parse_config` sets of SessionConfig, ServerConfig and CacheConfig, and the level of the log, which
-- is none where it is left alone.
pub record Settings : Type 0 where
  pub save_path : Bytes
  pub auth_token : Bytes
  pub enable_webtorrent : Bool
  pub stream_port : ℕ
  pub control_port : ℕ
  pub max_storage_bytes : ℤ
  pub db_path : Bytes
  pub log_level : Option LogLevel
  pub extra_trackers : List Bytes

abbrev pub default_settings : Settings
default_settings = record {
  save_path = codes "./downloads";
  auth_token = [];
  enable_webtorrent = true;
  stream_port = 0;
  control_port = 0;
  max_storage_bytes = pos 0;
  db_path = codes "seekserve_cache.db";
  log_level = none;
  extra_trackers = [];
}

-- The settings so far, and whether a member threw.
pub record Reading : Type 0 where
  pub settings : Settings
  pub failed : Bool

abbrev pub throws : Settings → Reading
throws s = record { settings = s; failed = true }

abbrev pub goes_on : Settings → Reading
goes_on s = record { settings = s; failed = false }

-- get<std::string>, with what is done with the text.
abbrev pub read_text : Member → (Bytes → Settings) → Settings → Reading
read_text absent f s = goes_on s
read_text (text t) f s = goes_on (f t)
read_text (flag b) f s = throws s
read_text (number n) f s = throws s
read_text (items ts) f s = throws s
read_text null f s = throws s

-- get<bool>
abbrev pub read_flag : Member → (Bool → Settings) → Settings → Reading
read_flag absent f s = goes_on s
read_flag (text t) f s = throws s
read_flag (flag b) f s = goes_on (f b)
read_flag (number n) f s = throws s
read_flag (items ts) f s = throws s
read_flag null f s = throws s

-- get of a number; a boolean is taken for 0 or 1.
abbrev pub read_number : Member → (ℤ → Settings) → Settings → Reading
read_number absent f s = goes_on s
read_number (text t) f s = throws s
read_number (flag b) f s = goes_on (f (if b then pos 1 else pos 0))
read_number (number n) f s = goes_on (f n)
read_number (items ts) f s = throws s
read_number null f s = throws s

-- static_cast<std::uint16_t>
abbrev pub uint16 : ℤ → ℕ
uint16 (pos n) = n % 2 ^ 16
uint16 (negsuc n) = 2 ^ 16 - (n % 2 ^ 16 + 1)

-- The loop over the trackers, behind `clear`.
unfoldable pub read_trackers : List (Option Bytes) → Settings → Reading
read_trackers [] s = goes_on s
read_trackers (none ∷ ts) s = throws s
read_trackers (some t ∷ ts) s =
    read_trackers ts (record s { extra_trackers = s.extra_trackers ++ (t ∷ []) })

-- A range-based `for` over one text runs once, and over null never.
abbrev pub read_items : Member → Settings → Reading
read_items absent s = goes_on s
read_items (text t) s = goes_on (record s { extra_trackers = t ∷ [] })
read_items (flag b) s = throws (record s { extra_trackers = [] })
read_items (number n) s = throws (record s { extra_trackers = [] })
read_items null s = goes_on (record s { extra_trackers = [] })
read_items (items ts) s = read_trackers ts (record s { extra_trackers = [] })

unfoldable pub level_of : Bytes → LogLevel
unfolding bytes_eq
level_of t =
    if bytes_eq t (codes "debug")
    then debug
    else if bytes_eq t (codes "warn")
    then warn
    else if bytes_eq t (codes "error")
    then error
    else info

abbrev pub read_save_path : (Bytes → Member) → Settings → Reading
read_save_path j s = read_text (j (codes "save_path")) (λ t. record s { save_path = t }) s

-- The readers behind the first, in the order of the source.
abbrev pub later_readers : (Bytes → Member) → List (Settings → Reading)
later_readers j =
    (λ s. read_text (j (codes "auth_token")) (λ t. record s { auth_token = t }) s)
    ∷ (λ s. read_flag (j (codes "enable_webtorrent")) (λ b. record s { enable_webtorrent = b }) s)
    ∷ (λ s. read_number (j (codes "stream_port")) (λ n. record s { stream_port = uint16 n }) s)
    ∷ (λ s. read_number (j (codes "control_port")) (λ n. record s { control_port = uint16 n }) s)
    ∷ (λ s. read_number (j (codes "max_storage_bytes")) (λ n. record s { max_storage_bytes = n }) s)
    ∷ (λ s. read_text (j (codes "cache_db_path")) (λ t. record s { db_path = t }) s)
    ∷ (λ s. read_text (j (codes "log_level")) (λ t. record s { log_level = some (level_of t) }) s)
    ∷ (λ s. read_items (j (codes "extra_trackers")) s)
    ∷ []

-- An exception ends the reading; what was set stays.
unfoldable pub read_all : List (Settings → Reading) → Settings → Settings
read_all [] s = s
read_all (r ∷ rs) s =
    let rest = read_all rs (r s).settings in if (r s).failed then (r s).settings else rest

-- `config_json` is the text, if there is one, and `parse` is nlohmann's parser.
unfoldable pub parse_config : (Bytes → ConfigJson) → Option Bytes → Settings
unfolding read_all read_trackers level_of
parse_config parse none = default_settings
parse_config parse (some config_json) =
    if is_empty config_json then default_settings else elim (parse config_json) [
      | none ↦ default_settings
      | some j ↦ read_all (read_save_path j ∷ later_readers j) default_settings
    ]
