-- ===== src/Http/Registry.antt =====
-- http_range_server.cpp: the state of `HttpRangeServer` and the operations that change it. A
-- std::shared_ptr to a source or a scheduler is a number; the sources on which `cancel` was called
-- are listed. The network is a parameter.
pub mod Lookup
pub mod Table
pub mod Cancels
mod Tests
use seekserve.Common.{
  ℕ, suc, ◌+◌, Bool, true, false, not, Option, none, some, List, [], ◌∷◌, ◌++◌, if◌then◌else◌, leb,
  map,
}
use seekserve.Common.Int.{ℤ}
use seekserve.Common.Bytes.{Bytes, bytes_eq}
use seekserve.Common.Assoc.{Assoc, lookup, insert, erase}
use seekserve.Types.{
  TorrentId, FileIndex, Result, ok, err, server_already_running, invalid_argument, io_error,
}
use seekserve.Http.Url.{source_key}

pub record SourceEntry : Type 0 where
  pub source : ℕ
  pub torrent_id : TorrentId
  pub file_index : FileIndex
  pub file_path : Bytes

pub record Server : Type 0 where
  pub bind_address : Bytes
  pub max_concurrent_streams : ℕ
  pub auth_token : Bytes
  pub sources : Assoc SourceEntry
  pub cancelled : List ℕ
  pub running : Bool
  pub port : ℕ
  pub active_connections : ℕ
  pub range_callback : Option ℕ

-- A server as constructed; `auth_token` is what `set_auth_token` sets.
unfoldable pub make_server : Bytes → ℕ → Bytes → Server
make_server bind_address max_concurrent_streams token = record {
  bind_address = bind_address;
  max_concurrent_streams = max_concurrent_streams;
  auth_token = token;
  sources = [];
  cancelled = [];
  running = false;
  port = 0;
  active_connections = 0;
  range_callback = none;
}

unfoldable pub set_byte_source : ℕ → TorrentId → FileIndex → Bytes → Server → Server
unfolding insert source_key
set_byte_source source torrent_id file_index file_path sv = record sv {
  sources =
      insert (source_key torrent_id file_index)
        (record {
          source = source;
          torrent_id = torrent_id;
          file_index = file_index;
          file_path = file_path;
        })
        sv.sources;
}

unfoldable pub remove_byte_source : TorrentId → FileIndex → Server → Server
unfolding lookup erase source_key
remove_byte_source torrent_id file_index sv =
    elim (lookup (source_key torrent_id file_index) sv.sources) [
      | none ↦ sv
      | some entry ↦ record sv {
        sources = erase (source_key torrent_id file_index) sv.sources;
        cancelled = entry.source ∷ sv.cancelled;
      }
    ]

-- The loop of remove_byte_sources_for_torrent: the entries that stay, and the sources to cancel.
unfoldable pub kept : TorrentId → Assoc SourceEntry → Assoc SourceEntry
unfolding bytes_eq
kept torrent_id [] = []
kept torrent_id ((key, entry) ∷ m) =
    let rest = kept torrent_id m in
    if bytes_eq entry.torrent_id torrent_id then rest else (key, entry) ∷ rest

unfoldable pub to_cancel : TorrentId → Assoc SourceEntry → List ℕ
unfolding bytes_eq
to_cancel torrent_id [] = []
to_cancel torrent_id ((key, entry) ∷ m) =
    let rest = to_cancel torrent_id m in
    if bytes_eq entry.torrent_id torrent_id then entry.source ∷ rest else rest

unfoldable pub remove_byte_sources_for_torrent : TorrentId → Server → Server
unfolding kept to_cancel
remove_byte_sources_for_torrent torrent_id sv = record sv {
  sources = kept torrent_id sv.sources;
  cancelled = to_cancel torrent_id sv.sources ++ sv.cancelled;
}

-- What the sockets answer to `start`.
pub record Network : Type 0 where
  pub is_address : Bytes → Bool
  pub opens : Bool
  pub binds : ℕ → Bool
  pub listens : Bool
  pub local_port : ℕ → ℕ

unfoldable pub start : Network → ℕ → Server → Server × Result ℕ
start net port sv =
    if sv.running
    then (sv, err server_already_running)
    else if not (net.is_address sv.bind_address)
    then (sv, err invalid_argument)
    else if not net.opens
    then (sv, err io_error)
    else if not (net.binds port)
    then (sv, err io_error)
    else if not net.listens
    then (sv, err io_error)
    else (record sv { port = net.local_port port; running = true }, ok (net.local_port port))

abbrev pub source_of : Bytes × SourceEntry → ℕ
source_of (key, entry) = entry.source

unfoldable pub stop : Server → Server
stop sv = if not sv.running then sv else record sv {
  running = false;
  cancelled = map source_of sv.sources ++ sv.cancelled;
  sources = [];
}

unfoldable pub set_range_callback : Option ℕ → Server → Server
set_range_callback cb sv = record sv { range_callback = cb }

-- The connection limit, which the accept handler checks; `false` closes the socket.
unfoldable pub admits : Server → Bool
admits sv = not (leb sv.max_concurrent_streams sv.active_connections)

unfoldable pub find_source : TorrentId → FileIndex → Server → Option SourceEntry
unfolding lookup source_key
find_source torrent_id file_index sv = lookup (source_key torrent_id file_index) sv.sources
