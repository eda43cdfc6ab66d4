-- ===== src/Lib.antt =====
-- SeekServe: streaming a file of a torrent over HTTP while it is downloaded.
--
-- The program. libtorrent downloads pieces; `PieceAvailabilityIndex` records which ones are complete;
-- `ByteRangeMapper` maps bytes of a file to pieces; `ByteSource` reads bytes and waits for the pieces
-- that hold them; `StreamingScheduler` sets deadlines for the pieces that the player needs next.
-- `HttpRangeServer` answers range requests out of byte sources and tells the scheduler of each range.
-- `MetadataCatalog` knows the files of the torrents, `OfflineCacheManager` keeps a database of what has
-- been downloaded, `TorrentSessionManager` owns the handles, `AlertDispatcher` calls the handlers of
-- libtorrent's alerts, and `SeekServeEngine` wires them together. `ControlApiServer` works on the same
-- session, catalog, cache and range server; the C API passes its calls on to the engine.
--
-- The files, with the code that they model (paths from the repository's root):
--   Common          lists, numbers, bytes, maps, decimal texts (no code of the repository)
--   Types           seekserve-core/include/seekserve/types.hpp, error.hpp
--   RangeParser     seekserve-serve/src/range_parser.cpp: parse_range_header
--   Availability    seekserve-core/src/piece_availability.cpp; Threads: concurrent calls of mark_complete
--   Mapper          seekserve-core/src/byte_range_mapper.cpp: map is `map_range`
--   Scheduler       seekserve-core/src/streaming_scheduler.cpp, include/seekserve/config.hpp
--   ByteSource      seekserve-core/src/byte_source.cpp
--   Http.Url        seekserve-serve/src/http_range_server.cpp: targets, tokens, MIME types, stream URLs
--   Http.Auth       seekserve-serve/include/seekserve/auth_utils.hpp, src/token_auth.cpp
--   Http.Registry   http_range_server.cpp: the registered sources, start and stop
--   Http.Handler    http_range_server.cpp: handle_connection, up to the answer
--   Http.Stream     http_range_server.cpp: stream_body
--   Catalog         seekserve-core/src/metadata_catalog.cpp
--   Cache           seekserve-core/src/offline_cache.cpp
--   Session         seekserve-core/src/session_manager.cpp: the torrents' handles;
--                   Adding: add_torrent with libtorrent's calls one by one
--   Engine          seekserve-serve/src/engine.cpp: State, and by operations Torrents, Selection, Servers
--                   and Ticks; Alerts and Wiring: the handlers of alerts; Restore: the constructor;
--                   Control: the control server on the engine, get_status_json; Ops and Reach: runs
--   Dispatcher      seekserve-core/src/alert_dispatcher.cpp, include/seekserve/alert_dispatcher.hpp
--   Api             seekserve-serve/src/control_api_server.cpp: State, Paths (the regular expressions),
--                   Torrent (the routes below a torrent), Handler (handle_connection), Server
--   Capi            seekserve-capi/src/seekserve_c.cpp: the ss_ functions; Settings: parse_config;
--                   Create: ss_engine_create; Calls: runs of calls
--   Demo            seekserve-demo/src/main.cpp: options; Local: serve_local_file; Handlers: of alerts
-- Below each of them stand the modules with its theorems, and Tests with runs and examples.
--
-- How state and operations correspond. A class is a record of its fields; a method takes the record, and
-- returns it where the method changes it. A method under a mutex is one step. Where threads meet, the
-- model has the schedule: the wait of a byte source takes the list of what other threads do meanwhile,
-- concurrent marks are a step relation, and the engine runs lists of operations, alerts, ticks and requests.
-- Errors are values of `Result` and `Option`.
--
-- Parameters. libtorrent's file_storage with its documented behaviour, its session and handles; the file
-- system; the sockets; the clock; whether SQLite prepares a statement, and the order of its rows; what
-- nlohmann's parser makes of a text, how it prints, and which texts it takes for UTF-8; whether
-- an allocation succeeds.
--
-- Bounds and fuel. Integers that can be negative are ℤ, the others ℕ; std::stoi and std::stoll refuse
-- numbers that do not fit. The only fuel is in `stream_body`, which gets one step for each byte of the
-- body: a step that goes on takes a byte at least, and `stream_body_ends` shows that this is enough.
--
-- Not modelled: libtorrent's settings, the io_context, the sockets and the threads themselves, the
-- parsing of HTTP, the text of JSON answers, the freeing of memory, the demo's console output and waiting,
-- the bindings and applications in Dart. An exception of session::add_torrent is modelled where it leaves
-- the session and where it ends a request of the control server; the engine's own calls of it are those
-- that return. The flag `delete_files` only reaches libtorrent. The tick that start_server makes at once
-- is a step of its own.
pub mod Common
pub mod Types
pub mod RangeParser
pub mod Availability
pub mod Mapper
pub mod Scheduler
pub mod ByteSource
pub mod Http
pub mod Catalog
pub mod Cache
pub mod Session
pub mod Engine
pub mod Dispatcher
pub mod Api
pub mod Capi
pub mod Demo
