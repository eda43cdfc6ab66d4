-- ===== src/Capi/Tests.antt =====
-- Calls on an engine without torrents, and a configuration.
use seekserve.Common.{
  if◌then◌else◌, ◌≤◌, ◌≡◌, refl, true, false, none, some, [], arith, length, take, min, ◌-◌,
}
use seekserve.Common.Int.{pos}
use seekserve.Common.Bytes.{Bytes, codes, bytes_eq}
use seekserve.Http.Registry.{make_server}
use seekserve.Scheduler.{default_config}
use seekserve.Api.State.{Control, ApiRequest, post}
use seekserve.Api.Handler.{is_authorized}
use seekserve.Engine.State.{Engine}
use seekserve.Capi.{copy_id}
use seekserve.Capi.Copies.{c_string, copy_id-c_string}
use seekserve.Capi.Settings.{ConfigJson, Member, text, number, absent, parse_config}
use seekserve.Capi.Unread.{parse_config-is_authorized}

abbrev en : Engine
en = record {
  config = record {
    bind_address = codes "127.0.0.1";
    max_concurrent_streams = 4;
    auth_token = codes "t";
    stream_port = 0;
    scheduler = default_config;
  };
  session = record { save_path = codes "/tmp"; handles = [] };
  catalog = [];
  cache = record {
    is_open = true;
    max_storage_bytes = pos 0;
    prepares = λ s. true;
    entries = [];
    torrents = [];
  };
  http_server = none;
  states = [];
  removed_ids = [];
  server_running = false;
  events = [];
  fresh = 0;
  cancelled = [];
}

-- Four bytes hold three letters.
copy_id-c_string_example :
    (length (copy_id (codes "abcdef") 4) ≤ 4)
    × (c_string (copy_id (codes "abcdef") 4) ≡ some (take (min (4 - 1) 6) (codes "abcdef")))
copy_id-c_string_example =
    copy_id-c_string (codes "abcdef") 4 (omega arith)
      (omega arith, (omega arith, (omega arith, (omega arith, (omega arith, (omega arith, tt))))))

abbrev members : Bytes → Member
unfolding bytes_eq
members name =
    if bytes_eq name (codes "save_path")
    then number (pos 5)
    else if bytes_eq name (codes "auth_token")
    then text (codes "secret")
    else absent

abbrev parse : Bytes → ConfigJson
parse config_json = some members

abbrev c : Control
unfolding parse_config make_server bytes_eq
c = record {
  sessions = record { save_path = codes "/tmp"; handles = [] };
  catalog = [];
  range_server = make_server (codes "127.0.0.1") 4 [];
  cache = en.cache;
  auth_token = (parse_config parse (some (codes "{}"))).auth_token;
}

abbrev req : ApiRequest
req = record { method = post; target = codes "/api/server/stop"; authorization = none; body = [] }

parse_config-is_authorized_example : is_authorized req c ≡ true
unfolding members c
parse_config-is_authorized_example =
    parse_config-is_authorized parse (codes "{}") members c req refl refl refl refl
