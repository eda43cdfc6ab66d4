-- ===== src/Api/Server.antt =====
-- control_api_server.cpp: the life cycle of `ControlApiServer`: `start`, `stop` and the test of
-- `do_accept`. The network is a parameter; the address is always 127.0.0.1.
use seekserve.Common.{ℕ, Bool, true, false, not, if◌then◌else◌, leb}
use seekserve.Common.Bytes.{codes}
use seekserve.Types.{Result, ok, err, server_already_running, invalid_argument, io_error}
use seekserve.Http.Registry.{Network}

-- `acceptor` is whether an acceptor is there and open.
pub record ApiServer : Type 0 where
  pub running : Bool
  pub acceptor : Bool
  pub port : ℕ
  pub active_connections : ℕ

-- The acceptor is made before the socket is opened, and stays open where a later call fails.
unfoldable pub start : Network → ℕ → ApiServer → ApiServer × Result ℕ
start net port api =
    if api.running
    then (api, err server_already_running)
    else if not (net.is_address (codes "127.0.0.1"))
    then (api, err invalid_argument)
    else if not net.opens
    then (record api { acceptor = false }, err io_error)
    else if not (net.binds port)
    then (record api { acceptor = true }, err io_error)
    else if not net.listens
    then (record api { acceptor = true }, err io_error)
    else (
      record api { acceptor = true; port = net.local_port port; running = true },
      ok (net.local_port port),
    )

unfoldable pub stop : ApiServer → ApiServer
stop api = if not api.running then api else record api { running = false; acceptor = false }

-- Whether an accepted connection gets a thread, and not the limit's close.
unfoldable pub admits : ApiServer → Bool
admits api = not (leb 20 api.active_connections)
