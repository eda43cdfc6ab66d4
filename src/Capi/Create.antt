-- ===== src/Capi/Create.antt =====
-- seekserve_c.cpp: `ss_engine_create`. The database at a path, and whether the constructor throws or finds
-- no memory, are parameters.
use seekserve.Common.{Bool, Option, none, some, List, if◌then◌else◌}
use seekserve.Common.Int.{ℤ}
use seekserve.Common.Bytes.{Bytes, codes}
use seekserve.Cache.{Cache, TorrentRow}
use seekserve.Scheduler.{default_config}
use seekserve.Session.{Libtorrent}
use seekserve.Engine.State.{Config, Engine}
use seekserve.Engine.Restore.{make_engine}
use seekserve.Capi.Settings.{Settings, ConfigJson, parse_config}

-- The engine's configuration: what the settings do not name has its default.
abbrev pub config_of : Settings → Config
config_of s = record {
  bind_address = codes "127.0.0.1";
  max_concurrent_streams = 4;
  auth_token = s.auth_token;
  stream_port = s.stream_port;
  scheduler = default_config;
}

unfoldable pub ss_engine_create :
    Libtorrent
    → (List TorrentRow → List TorrentRow)
    → (Bytes → ℤ → Cache)
    → (Bytes → ConfigJson)
    → Bool
    → Option Bytes
    → Option Engine
unfolding make_engine parse_config
ss_engine_create lt by_added open_cache parse constructs config_json =
    let s = parse_config parse config_json in
    if constructs
    then some (
        make_engine lt by_added (config_of s) s.save_path
          (open_cache s.db_path s.max_storage_bytes))
    else none
