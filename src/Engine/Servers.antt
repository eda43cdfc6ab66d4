-- ===== src/Engine/Servers.antt =====
-- engine.cpp: `start_server`, `stop_server` and `get_stream_url`.
use seekserve.Common.{ℕ, true, false, not, none, some, ◌++◌, map, if◌then◌else◌}
use seekserve.Common.Bytes.{Bytes}
use seekserve.Types.{
  TorrentId, FileIndex, Result, ok, err, torrent_not_found, session_not_started,
  server_already_running,
}
use seekserve.Http.Url.{stream_url}
use seekserve.Http.Registry.{Server, Network, make_server, start, stop}
use seekserve.Session.{has_torrent}
use seekserve.Engine.State.{TorrentState, Engine, on_server}

unfoldable pub get_stream_url : TorrentId → FileIndex → Engine → Result Bytes
unfolding has_torrent stream_url
get_stream_url id fi en = elim en.http_server [
  | none ↦ err session_not_started
  | some sv ↦
      if not (has_torrent id en.session)
      then err torrent_not_found
      else ok (stream_url sv.bind_address sv.port id fi sv.auth_token)
]

-- Behind the start of the range server; `api` is what the control server's `start` returns.
abbrev pub start_api : Result ℕ → Engine → Server → Result ℕ → Engine × Result ℕ
start_api api en started (err e) = (record en { http_server = some started }, err e)
start_api (err e) en started (ok port) = (record en { http_server = some (stop started) }, err e)
start_api (ok api_port) en started (ok port) =
    (record en { http_server = some started; server_running = true }, ok api_port)

-- The tick that `start_tick_timer` makes at once is an `on_tick` behind this, as a step of its own.
unfoldable pub start_server : Network → Result ℕ → Engine → Engine × Result ℕ
unfolding make_server start stop
start_server net api en =
    let sv =
      make_server en.config.bind_address en.config.max_concurrent_streams en.config.auth_token in
    let (started, result) = start net en.config.stream_port sv in
    if en.server_running then (en, err server_already_running) else start_api api en started result

abbrev pub pointer_of : Bytes × TorrentState → ℕ
pointer_of (id, state) = state.pointer

-- The servers stop, and the sources of all the states are cancelled; `cancelled` lists these.
unfoldable pub stop_server : Engine → Engine
unfolding stop
stop_server en = if not en.server_running then en else record en {
  http_server = on_server stop en.http_server;
  server_running = false;
  cancelled = map pointer_of en.states ++ en.cancelled;
}
