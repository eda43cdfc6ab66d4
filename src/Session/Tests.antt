-- ===== src/Session/Tests.antt =====
-- A libtorrent of one torrent with a v1 hash of twenty bytes.
use seekserve.Common.{
  ℕ, ◌+◌, ◌/◌, ◌%◌, ◌*◌, ◌≡◌, refl, true, some, none, List, [], ◌∷◌, All, arith, ltb, length,
  if◌then◌else◌,
}
use seekserve.Common.Bytes.{Bytes, codes, bytes_eq}
use seekserve.Http.Url.Laws.{IsHex}
use seekserve.Session.{has_torrent}
use seekserve.Session.Adding.{Loader, add, torrent_id_from_handle}
use seekserve.Session.Ids.{IsLibtorrent, adds, SessionOp, run_session, match_torrent-run_session}
use seekserve.Api.Paths.{match_torrent, below, IsSubPath}
use seekserve.Http.Url.{all_bytes}

abbrev digit : ℕ → ℕ
digit n = if ltb n 10 then 48 + n else if ltb n 16 then 87 + n else 102

unfoldable to_hex : Bytes → Bytes
to_hex [] = []
to_hex (c ∷ s) = digit (c / 16) ∷ digit (c % 16) ∷ to_hex s

digit-IsHex : (n : ℕ) → IsHex (digit n)
digit-IsHex n = ground arith

to_hex-IsHex : (b : Bytes) → All IsHex (to_hex b)
unfolding to_hex
to_hex-IsHex [] = tt
to_hex-IsHex (c ∷ s) = (digit-IsHex (c / 16), (digit-IsHex (c % 16), to_hex-IsHex s))

length-to_hex : (b : Bytes) → length (to_hex b) ≡ 2 * length b
unfolding to_hex
length-to_hex [] = refl
length-to_hex (c ∷ s) = ground (arith, length-to_hex s)

abbrev lt : Loader
unfolding to_hex
lt = record {
  parse_magnet_uri = λ uri. some (record { content = 1; save_path = []; trackers = [] });
  load_torrent_file = λ uri. none;
  adds = λ atp. some atp.content;
  info_hashes = λ h. record { v1 = codes "a hash of 20 bytes.."; v2 = none };
  to_hex = to_hex;
}

lt-IsLibtorrent : IsLibtorrent lt
unfolding lt to_hex
lt-IsLibtorrent = record {
  hex_digits = to_hex-IsHex;
  two_each = length-to_hex;
  v1_size = λ h. refl;
  v2_size = λ h v2 e. ground arith;
}

abbrev id : Bytes
unfolding torrent_id_from_handle
id = torrent_id_from_handle lt 1

abbrev ops : List SessionOp
ops = adds (codes "magnet:x") [] ∷ adds (codes "x.torrent") [] ∷ []

present :
    has_torrent id (run_session lt [] ops (record { save_path = codes "/tmp"; handles = [] }))
    ≡ true
unfolding has_torrent run_session add torrent_id_from_handle bytes_eq to_hex
present = refl

status_path : IsSubPath (codes "/status")
unfolding all_bytes
status_path = refl

match_torrent-run_session_example :
    match_torrent (below id (codes "/status")) ≡ some (id, codes "/status")
match_torrent-run_session_example =
    match_torrent-run_session lt [] ops (codes "/tmp") id (codes "/status") lt-IsLibtorrent present
      status_path
