-- ===== src/Engine/State.antt =====
-- engine.cpp and engine.hpp: the state of `SeekServeEngine`. A std::shared_ptr to a source and the raw
-- pointer to a scheduler are numbers from `fresh`; a source and a scheduler of one selection share
-- theirs. The io_context and the timer are not part of the state.
use seekserve.Common.{ℕ, Bool, false, ◌||◌, Option, none, some, List, [], ◌∷◌, if◌then◌else◌}
use seekserve.Common.Bytes.{Bytes, bytes_eq}
use seekserve.Common.Assoc.{Assoc}
use seekserve.Types.{TorrentId, FileIndex}
use seekserve.Availability.{PieceAvailability}
use seekserve.Scheduler.{SchedulerConfig, Scheduler}
use seekserve.Mapper.{Mapper}
use seekserve.Http.Registry.{Server}
use seekserve.Catalog.{Catalog}
use seekserve.Cache.{Cache}
use seekserve.Session.{Libtorrent, Session, get_handle}

pub record Config : Type 0 where
  pub bind_address : Bytes
  pub max_concurrent_streams : ℕ
  pub auth_token : Bytes
  pub stream_port : ℕ
  pub scheduler : SchedulerConfig

-- `pointer` stands for the source and the scheduler of the selection.
pub record TorrentState : Type 0 where
  pub avail : PieceAvailability
  pub mapper : Mapper
  pub scheduler : Scheduler
  pub pointer : ℕ
  pub selected_file : FileIndex

pub data Event : Type 0 where
  metadata_received : TorrentId → Event
  file_completed : TorrentId → FileIndex → Event
  torrent_paused : TorrentId → Event
  torrent_resumed : TorrentId → Event
  alert_error : Event

pub record Engine : Type 0 where
  pub config : Config
  pub session : Session
  pub catalog : Catalog
  pub cache : Cache
  pub http_server : Option Server
  pub states : Assoc TorrentState
  pub removed_ids : List TorrentId
  pub server_running : Bool
  pub events : List Event
  pub fresh : ℕ
  pub cancelled : List ℕ

-- removed_ids_.count(id)
unfoldable pub is_removed : TorrentId → List TorrentId → Bool
unfolding bytes_eq
is_removed id [] = false
is_removed id (j ∷ ids) = bytes_eq j id || is_removed id ids

abbrev pub fire_event : Event → Engine → Engine
fire_event ev en = record en { events = ev ∷ en.events }

abbrev pub on_server : (Server → Server) → Option Server → Option Server
on_server f none = none
on_server f (some sv) = some (f sv)

-- get_handle, and is_valid of it
abbrev pub valid_handle : Libtorrent → TorrentId → Engine → Option ℕ
valid_handle lt id en = elim (get_handle id en.session) [
  | none ↦ none
  | some handle ↦ if lt.is_valid handle then some handle else none
]
