-- ===== src/Catalog/Tests.antt =====
-- A torrent with two files.
use seekserve.Common.{◌≡◌, refl, [], ◌∷◌}
use seekserve.Common.Int.{pos}
use seekserve.Common.Bytes.{Bytes, codes, bytes_eq}
use seekserve.Types.{ok}
use seekserve.Mapper.Example.{two_files}
use seekserve.Catalog.{Catalog, TorrentInfo, on_metadata_received, select_file}
use seekserve.Catalog.Laws.{on_metadata_received_again}

abbrev ab : Bytes
ab = codes "ab"

abbrev info : TorrentInfo
info = record { layout = two_files; num_pieces = 4 }

abbrev catalog : Catalog
catalog = on_metadata_received ab info []

select_ok : (select_file ab (pos 1) catalog).1 ≡ ok (0 ∷ 4 ∷ [])
unfolding select_file on_metadata_received bytes_eq
select_ok = refl

on_metadata_received_again_example :
    on_metadata_received ab info (on_metadata_received ab info []) ≡ on_metadata_received ab info []
on_metadata_received_again_example = on_metadata_received_again ab info info []
