-- ===== src/Http/Registry/Cancels.antt =====
-- Which sources are cancelled when a torrent's sources are removed.
use seekserve.Common.{
  ℕ, ◌≡◌, sym, ap, ◌∙◌, Option, none, some, List, [], ◌∷◌, ◌++◌, All, Bool-cases, inl, inr, ◌⊎◌,
}
use seekserve.Common.Bytes.{bytes_eq, bytes_eq_iff, Lacks}
use seekserve.Common.Assoc.{Assoc, lookup}
use seekserve.Types.{TorrentId, FileIndex}
use seekserve.Http.Url.{source_key}
use seekserve.Http.Url.Laws.{source_key-injective}
use seekserve.Http.Registry.{
  SourceEntry, Server, to_cancel, remove_byte_sources_for_torrent, find_source,
}
use seekserve.Http.Registry.Lookup.{IsKeyed, WellKeyed}

abbrev pub Holds : ℕ → List ℕ → Type 0
Holds x [] = ⊥
Holds x (y ∷ ys) = (x ≡ y) ⊎ Holds x ys

Holds-append : (x : ℕ) (ys zs : List ℕ) → Holds x ys → Holds x (ys ++ zs)
Holds-append x [] zs h = absurd h
Holds-append x (y ∷ ys) zs (inl e) = inl e
Holds-append x (y ∷ ys) zs (inr h) = inr (Holds-append x ys zs h)

lookup-to_cancel :
    (id : TorrentId) (fi : FileIndex) (m : Assoc SourceEntry) (e : SourceEntry)
    → Lacks b'/' id
    → All IsKeyed m
    → lookup (source_key id fi) m ≡ some e
    → Holds e.source (to_cancel id m)
unfolding lookup to_cancel
lookup-to_cancel id fi [] e h hm found = cc
lookup-to_cancel id fi ((key, d) ∷ m) e h ((key_is, lacks), hm) found =
    elim (Bool-cases (bytes_eq key (source_key id fi))) [
      | inl here ↦
          let own =
            source_key-injective d.torrent_id id d.file_index fi lacks h
              (sym key_is ∙ (bytes_eq_iff key (source_key id fi)).0 here) in
          rw ((bytes_eq_iff d.torrent_id id).1 own.0, to_cancel)
            (inl (ap (λ (o : Option SourceEntry). number o) (sym (rw (here, lookup) at found))))
      | inr there ↦
          let later = lookup-to_cancel id fi m e h hm (rw (there, lookup) at found) in
          elim (Bool-cases (bytes_eq d.torrent_id id)) [
            | inl same ↦ rw (same, to_cancel) (inr later)
            | inr other ↦ rw (other, to_cancel) later
          ]
    ]
  where
    number : Option SourceEntry → ℕ
    number none = 0
    number (some entry) = entry.source

-- When a torrent's sources are removed, the source that any of its streams had is cancelled, so that
-- a read that waits in it ends. The torrent id holds no slash, and the registry is keyed by torrent and
-- file.
pub remove_byte_sources_for_torrent_cancels :
    (id : TorrentId) (fi : FileIndex) (sv : Server) (e : SourceEntry)
    → Lacks b'/' id
    → WellKeyed sv
    → find_source id fi sv ≡ some e
    → Holds e.source (remove_byte_sources_for_torrent id sv).cancelled
unfolding find_source remove_byte_sources_for_torrent
remove_byte_sources_for_torrent_cancels id fi sv e h keyed found =
    Holds-append e.source (to_cancel id sv.sources) sv.cancelled
      (lookup-to_cancel id fi sv.sources e h keyed found)
