-- ===== src/Http/Registry/Table.antt =====
-- The registry as a table from torrents and files to sources, and its operations on the table.
use seekserve.Common.{ℕ, ◌≡◌, refl, ◌∙◌, Option, none, some, List, [], ◌∷◌, if◌then◌else◌}
use seekserve.Common.Bytes.{Bytes, bytes_eq, Lacks}
use seekserve.Types.{TorrentId, FileIndex}
use seekserve.Http.Registry.{
  SourceEntry, Server, set_byte_source, remove_byte_source, remove_byte_sources_for_torrent,
  find_source,
}
use seekserve.Http.Registry.Lookup.{
  WellKeyed, same_stream, set_byte_source-WellKeyed, remove_byte_source-WellKeyed,
  remove_byte_sources_for_torrent-WellKeyed, find_source-set_byte_source,
  find_source-remove_byte_source, find_source-remove_byte_sources_for_torrent,
}

pub data RegistryOp : Type 0 where
  sets : ℕ → TorrentId → FileIndex → Bytes → RegistryOp
  removes : TorrentId → FileIndex → RegistryOp
  removes_torrent : TorrentId → RegistryOp

unfoldable pub run_registry : List RegistryOp → Server → Server
unfolding set_byte_source remove_byte_source remove_byte_sources_for_torrent
run_registry [] sv = sv
run_registry (sets source id fi path ∷ ops) sv =
    run_registry ops (set_byte_source source id fi path sv)
run_registry (removes id fi ∷ ops) sv = run_registry ops (remove_byte_source id fi sv)
run_registry (removes_torrent id ∷ ops) sv =
    run_registry ops (remove_byte_sources_for_torrent id sv)

-- What the registry promises: a partial function, whose value an operation changes at the streams that it
-- names.
abbrev pub Table : Type 0
Table = TorrentId → FileIndex → Option SourceEntry

abbrev pub apply : RegistryOp → Table → Table
apply (sets source id fi path) table id' fi' =
    if same_stream id fi id' fi'
    then some (record { source = source; torrent_id = id; file_index = fi; file_path = path })
    else table id' fi'
apply (removes id fi) table id' fi' = if same_stream id fi id' fi' then none else table id' fi'
apply (removes_torrent id) table id' fi' = if bytes_eq id id' then none else table id' fi'

abbrev pub run_table : List RegistryOp → Table → Table
run_table [] table = table
run_table (op ∷ ops) table = run_table ops (apply op table)

abbrev pub LackSlash : List RegistryOp → Type 0
LackSlash [] = Unit
LackSlash (sets source id fi path ∷ ops) = Lacks b'/' id × LackSlash ops
LackSlash (removes id fi ∷ ops) = Lacks b'/' id × LackSlash ops
LackSlash (removes_torrent id ∷ ops) = Lacks b'/' id × LackSlash ops

module _ (id' : TorrentId) (fi' : FileIndex) where
  apply-here :
      (op : RegistryOp) (table table' : Table)
      → table id' fi' ≡ table' id' fi'
      → apply op table id' fi' ≡ apply op table' id' fi'
  apply-here (sets source id fi path) table table' e = rw e refl
  apply-here (removes id fi) table table' e = rw e refl
  apply-here (removes_torrent id) table table' e = rw e refl

  -- Only the value at the stream counts.
  run_table-here :
      (ops : List RegistryOp) (table table' : Table)
      → table id' fi' ≡ table' id' fi'
      → run_table ops table id' fi' ≡ run_table ops table' id' fi'
  run_table-here [] table table' e = e
  run_table-here (op ∷ ops) table table' e =
      run_table-here ops (apply op table) (apply op table') (apply-here op table table' e)

  -- After any run of its operations a registry finds for a stream exactly what the table holds on which
  -- the same operations were run. No torrent id holds a slash, and the registry was keyed by torrent and
  -- file before.
  pub find_source-run_registry :
      (ops : List RegistryOp) (sv : Server)
      → Lacks b'/' id'
      → LackSlash ops
      → WellKeyed sv
      → find_source id' fi' (run_registry ops sv)
        ≡ run_table ops (λ id fi. find_source id fi sv) id' fi'
  unfolding run_registry
  find_source-run_registry [] sv h' hs keyed = refl
  find_source-run_registry (sets source id fi path ∷ ops) sv h' (h, hs) keyed =
      find_source-run_registry ops (set_byte_source source id fi path sv) h' hs
        (set_byte_source-WellKeyed source id fi path sv h keyed)
      ∙ run_table-here ops _ _ (find_source-set_byte_source source id id' fi fi' path sv h h')
  find_source-run_registry (removes id fi ∷ ops) sv h' (h, hs) keyed =
      find_source-run_registry ops (remove_byte_source id fi sv) h' hs
        (remove_byte_source-WellKeyed id fi sv keyed)
      ∙ run_table-here ops _ _ (find_source-remove_byte_source id id' fi fi' sv h h')
  find_source-run_registry (removes_torrent id ∷ ops) sv h' (h, hs) keyed =
      find_source-run_registry ops (remove_byte_sources_for_torrent id sv) h' hs
        (remove_byte_sources_for_torrent-WellKeyed id sv keyed)
      ∙ run_table-here ops _ _ (find_source-remove_byte_sources_for_torrent id id' fi' sv h' keyed)
