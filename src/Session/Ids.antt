-- ===== src/Session/Ids.antt =====
-- The ids of the session's torrents, and the control server's paths that name them.
use seekserve.Common.{
  Option, none, ℕ, ◌*◌, ◌≡◌, ◌≢◌, ap, subst, true, some, List, [], ◌∷◌, All, length, inl, inr,
  Option-cases, Bool-cases, arith, is_some,
}
use seekserve.Common.Bytes.{Bytes, bytes_eq, bytes_eq_iff}
use seekserve.Common.Assoc.{Assoc, lookup, insert, erase, lookup-insert, lookup-erase}
use seekserve.Types.{TorrentId, Result}
use seekserve.Http.Url.Laws.{IsHex, IsId}
use seekserve.Session.{Session, remove_torrent, has_torrent}
use seekserve.Session.Adding.{Loader, torrent_id_from_handle, params_of, with_handle, add}
use seekserve.Api.Paths.{match_torrent, match_torrent-below, below, IsSubPath}

-- What libtorrent documents: to_hex writes two hexadecimal digits for each byte, a v1 hash has 20 bytes and
-- a v2 hash 32.
pub record IsLibtorrent (lt : Loader) : Type 0 where
  pub hex_digits : (b : Bytes) → All IsHex (lt.to_hex b)
  pub two_each : (b : Bytes) → length (lt.to_hex b) ≡ 2 * length b
  pub v1_size : (h : ℕ) → length (lt.info_hashes h).v1 ≡ 20
  pub v2_size : (h : ℕ) (v2 : Bytes) → (lt.info_hashes h).v2 ≡ some v2 → length v2 ≡ 32

long-ne-nil : (b : Bytes) (n : ℕ) → length b ≡ 2 * n → n ≢ 0 → b ≢ []
long-ne-nil b n size some_bytes e = ground (arith, ap length e)

to_hex-IsId : (lt : Loader) (b : Bytes) → IsLibtorrent lt → length b ≢ 0 → IsId (lt.to_hex b)
to_hex-IsId lt b doc some_bytes =
    (doc.hex_digits b, long-ne-nil (lt.to_hex b) (length b) (doc.two_each b) some_bytes)

torrent_id_from_handle-IsId :
    (lt : Loader) (h : ℕ) → IsLibtorrent lt → IsId (torrent_id_from_handle lt h)
unfolding torrent_id_from_handle
torrent_id_from_handle-IsId lt h doc = elim (Option-cases (lt.info_hashes h).v2) [
  | inl only_v1 ↦
      rw (only_v1, torrent_id_from_handle)
        (to_hex-IsId lt (lt.info_hashes h).v1 doc (λ e. ground (arith, doc.v1_size h)))
  | inr (v2, has_v2) ↦
      rw (has_v2, torrent_id_from_handle)
        (to_hex-IsId lt v2 doc (λ e. ground (arith, doc.v2_size h v2 has_v2)))
]

-- Every torrent of the map has a hexadecimal id.
abbrev HasIds : Assoc ℕ → Type 0
HasIds handles = (id : TorrentId) → is_some (lookup id handles) ≡ true → IsId id

insert-HasIds :
    (k : TorrentId) (h : ℕ) (handles : Assoc ℕ)
    → IsId k
    → HasIds handles
    → HasIds (insert k h handles)
insert-HasIds k h handles new old id found = elim (Bool-cases (bytes_eq k id)) [
  | inl same ↦ subst IsId ((bytes_eq_iff k id).0 same) new
  | inr apart ↦ old id (rw (lookup-insert k id h handles, apart) at found)
]

erase-HasIds : (k : TorrentId) (handles : Assoc ℕ) → HasIds handles → HasIds (erase k handles)
erase-HasIds k handles old id found = elim (Bool-cases (bytes_eq k id)) [
  | inl same ↦ absurd (ground (arith, rw (lookup-erase k id handles, same) at found))
  | inr apart ↦ old id (rw (lookup-erase k id handles, apart) at found)
]

-- A call that changes the session's torrents.
pub data SessionOp : Type 0 where
  adds : Bytes → Bytes → SessionOp
  removes : TorrentId → SessionOp

-- An exception leaves the session as it was.
abbrev pub after : Session → Option (Session × Result TorrentId) → Session
after session none = session
after session (some (session', result)) = session'

unfoldable pub run_session : Loader → List Bytes → List SessionOp → Session → Session
unfolding add remove_torrent
run_session lt trackers [] session = session
run_session lt trackers (adds uri save_path ∷ ops) session =
    run_session lt trackers ops (after session (add lt trackers uri save_path session))
run_session lt trackers (removes id ∷ ops) session =
    run_session lt trackers ops (remove_torrent id session).0

with_handle-HasIds :
    (lt : Loader) (session : Session) (m : Option ℕ)
    → IsLibtorrent lt
    → HasIds session.handles
    → HasIds (after session (with_handle lt session m)).handles
with_handle-HasIds lt session none doc old = old
with_handle-HasIds lt session (some h) doc old =
    insert-HasIds (torrent_id_from_handle lt h) h session.handles
      (torrent_id_from_handle-IsId lt h doc) old

add-HasIds :
    (lt : Loader) (trackers : List Bytes) (uri save_path : Bytes) (session : Session)
    → IsLibtorrent lt
    → HasIds session.handles
    → HasIds (after session (add lt trackers uri save_path session)).handles
unfolding add
add-HasIds lt trackers uri save_path session doc old = elim (Option-cases (params_of lt uri)) [
  | inl refused ↦ rw (refused, add) old
  | inr (atp, read) ↦ rw (read, add) (with_handle-HasIds lt session _ doc old)
]

remove_torrent-HasIds :
    (id : TorrentId) (session : Session)
    → HasIds session.handles
    → HasIds (remove_torrent id session).0.handles
unfolding remove_torrent
remove_torrent-HasIds id session old = elim (Option-cases (lookup id session.handles)) [
  | inl missing ↦ rw (missing, remove_torrent) old
  | inr (h, there) ↦ rw (there, remove_torrent) (erase-HasIds id session.handles old)
]

run_session-HasIds :
    (lt : Loader) (trackers : List Bytes) (ops : List SessionOp) (session : Session)
    → IsLibtorrent lt
    → HasIds session.handles
    → HasIds (run_session lt trackers ops session).handles
unfolding run_session
run_session-HasIds lt trackers [] session doc old = old
run_session-HasIds lt trackers (adds uri save_path ∷ ops) session doc old =
    run_session-HasIds lt trackers ops (after session (add lt trackers uri save_path session)) doc
      (add-HasIds lt trackers uri save_path session doc old)
run_session-HasIds lt trackers (removes id ∷ ops) session doc old =
    run_session-HasIds lt trackers ops (remove_torrent id session).0 doc
      (remove_torrent-HasIds id session old)

-- The control server's expression names every torrent of the session: after any run of adds and removes
-- on a new session, the path /api/torrents/{id} with a sub-path is taken apart into the id and the
-- sub-path, for each id that the session has. libtorrent writes hexadecimal ids as it documents.
pub match_torrent-run_session :
    (lt : Loader) (trackers : List Bytes) (ops : List SessionOp) (save_path id sub_path : Bytes)
    → IsLibtorrent lt
    → has_torrent id (run_session lt trackers ops (record { save_path = save_path; handles = [] }))
      ≡ true
    → IsSubPath sub_path
    → match_torrent (below id sub_path) ≡ some (id, sub_path)
unfolding has_torrent lookup
match_torrent-run_session lt trackers ops save_path id sub_path doc present sub =
    match_torrent-below id sub_path
      (run_session-HasIds lt trackers ops (record { save_path = save_path; handles = [] }) doc
        (λ j found. absurd (ground (arith, found))) id present)
      sub
