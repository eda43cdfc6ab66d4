-- ===== src/Http/Registry/Tests.antt =====
-- Two streams of one torrent, and one of another.
use seekserve.Common.{◌≡◌, refl, some, arith, List, [], ◌∷◌}
use seekserve.Common.Int.{pos}
use seekserve.Common.Bytes.{Bytes, codes, bytes_eq}
use seekserve.Common.Decimal.{to_string}
use seekserve.Http.Registry.{
  Server, make_server, set_byte_source, remove_byte_sources_for_torrent, find_source,
}
use seekserve.Http.Registry.Lookup.{WellKeyed, set_byte_source-WellKeyed}
use seekserve.Http.Registry.Table.{
  sets, removes, removes_torrent, RegistryOp, run_registry, run_table, find_source-run_registry,
}
use seekserve.Http.Registry.Cancels.{Holds, remove_byte_sources_for_torrent_cancels}

abbrev ab : Bytes
ab = codes "ab"

abbrev cd : Bytes
cd = codes "cd"

abbrev movie : Bytes
movie = codes "m.mp4"

abbrev bare : Server
bare = make_server (codes "127.0.0.1") 4 (codes "t")

abbrev one : Server
one = set_byte_source 7 ab (pos 0) movie bare

one-WellKeyed : WellKeyed one
unfolding make_server
one-WellKeyed =
    set_byte_source-WellKeyed 7 ab (pos 0) movie bare (omega arith, (omega arith, tt)) tt

one_found :
    find_source ab (pos 0) one
    ≡ some (record { source = 7; torrent_id = ab; file_index = pos 0; file_path = movie })
unfolding find_source set_byte_source make_server bytes_eq to_string
one_found = refl

remove_byte_sources_for_torrent_cancels_example :
    Holds 7 (remove_byte_sources_for_torrent ab one).cancelled
remove_byte_sources_for_torrent_cancels_example =
    remove_byte_sources_for_torrent_cancels ab (pos 0) one
      (record { source = 7; torrent_id = ab; file_index = pos 0; file_path = movie })
      (omega arith, (omega arith, tt)) one-WellKeyed one_found

abbrev ops : List RegistryOp
ops =
    sets 8 cd (pos 1) movie ∷ removes ab (pos 0) ∷ sets 9 ab (pos 2) movie ∷ removes_torrent ab ∷ []

find_source-run_registry_example :
    find_source cd (pos 1) (run_registry ops one)
    ≡ run_table ops (λ id fi. find_source id fi one) cd (pos 1)
find_source-run_registry_example =
    find_source-run_registry cd (pos 1) ops one (omega arith, (omega arith, tt))
      (
        (omega arith, (omega arith, tt)),
        (
          (omega arith, (omega arith, tt)),
          ((omega arith, (omega arith, tt)), ((omega arith, (omega arith, tt)), tt)),
        ),
      )
      one-WellKeyed
