-- ===== src/Engine/Tests.antt =====
-- An engine with one torrent of two files, and a server.
mod Alerts
mod Restarts
use seekserve.Common.{◌≡◌, refl, true, false, none, some, [], ◌∷◌, arith, if◌then◌else◌}
use seekserve.Common.Int.{pos}
use seekserve.Common.Bytes.{Bytes, codes, bytes_eq}
use seekserve.Types.{ok, err, metadata_not_ready}
use seekserve.Mapper.Example.{two_files}
use seekserve.Http.Registry.{Server, Network, make_server}
use seekserve.Catalog.{TorrentInfo, list_files, on_metadata_received}
use seekserve.Session.{Libtorrent}
use seekserve.Scheduler.{default_config}
use seekserve.Engine.State.{Engine}
use seekserve.Engine.Torrents.{remove_torrent}
use seekserve.Engine.Selection.{select_file}
use seekserve.Engine.Servers.{start_server}
use seekserve.Engine.Ops.{adds, metadata, run_ops}
use seekserve.Engine.Removal.{list_files_after_removal}
use seekserve.Engine.Streams.{
  stream_of, Finds, stream_of-remove_torrent, select_file-Finds, stream_of-start_server,
}

abbrev ab : Bytes
ab = codes "ab"

abbrev info : TorrentInfo
info = record { layout = two_files; num_pieces = 4 }

abbrev lt : Libtorrent
lt = record {
  loads = λ uri save_path. some (ab, 1);
  is_valid = λ h. true;
  has_piece = λ h p. false;
  throws = λ uri save_path. false;
}

abbrev net : Network
net = record {
  is_address = λ a. true;
  opens = true;
  binds = λ p. true;
  listens = true;
  local_port = λ p. 8080;
}

abbrev sv : Server
sv = make_server (codes "127.0.0.1") 4 (codes "t")

abbrev en : Engine
en = record {
  config = record {
    bind_address = codes "127.0.0.1";
    max_concurrent_streams = 4;
    auth_token = codes "t";
    stream_port = 0;
    scheduler = default_config;
  };
  session = record { save_path = codes "/tmp"; handles = (ab, 1) ∷ [] };
  catalog = on_metadata_received ab info [];
  cache = record {
    is_open = true;
    max_storage_bytes = pos 0;
    prepares = λ s. true;
    entries = [];
    torrents = [];
  };
  http_server = some sv;
  states = [];
  removed_ids = [];
  server_running = false;
  events = [];
  fresh = 3;
  cancelled = [];
}

list_files_after_removal_example :
    list_files ab
      (run_ops
        (adds lt (codes "magnet:x") [] 1 ∷ metadata ab info 2 ∷ [])
        (remove_torrent ab en).0).catalog
    ≡ err metadata_not_ready
list_files_after_removal_example =
    list_files_after_removal ab (adds lt (codes "magnet:x") [] 1 ∷ metadata ab info 2 ∷ []) en

select_ok : (select_file lt 0 ab (pos 1) en).1 ≡ ok tt
unfolding select_file on_metadata_received bytes_eq
select_ok = refl

select_file-Finds_example : Finds ab (pos 1) 3 (select_file lt 0 ab (pos 1) en).0.http_server
select_file-Finds_example =
    select_file-Finds lt 0 ab (pos 1) en sv (omega arith, (omega arith, tt)) refl select_ok

stream_of-start_server_example :
    stream_of ab (pos 1) (start_server net (ok 9090) en).0.http_server ≡ none
stream_of-start_server_example = stream_of-start_server net (ok 9090) en ab (pos 1) refl
