-- ===== src/Cache/Tests.antt =====
-- A cache with two files of 60 bytes and a limit of 100.
use seekserve.Common.{ℕ, ◌≡◌, ◌≤◌, refl, true, false, List, [], ◌∷◌, arith}
use seekserve.Common.Int.{pos}
use seekserve.Common.Bytes.{Bytes, codes, bytes_eq}
use seekserve.Cache.{CacheEntry, Cache, no_progress, total_size, enforce_quota}
use seekserve.Cache.Quota.{enforce_quota-fits}

abbrev ab : Bytes
ab = codes "ab"

abbrev entry : ℕ → ℕ → CacheEntry
entry i at_time = record {
  torrent_id = ab;
  file_index = pos i;
  file_path = [];
  file_size = 60;
  progress = no_progress;
  offline_ready = false;
  last_access = at_time;
  added = 0;
}

abbrev cache : Cache
cache = record {
  is_open = true;
  max_storage_bytes = pos 100;
  prepares = λ s. true;
  entries = entry 0 5 ∷ entry 1 7 ∷ [];
  torrents = [];
}

abbrev as_stored : List CacheEntry → List CacheEntry
as_stored es = es

evicts_the_oldest : (enforce_quota as_stored cache).entries ≡ entry 1 7 ∷ []
unfolding enforce_quota bytes_eq
evicts_the_oldest = refl

enforce_quota-fits_example : total_size (enforce_quota as_stored cache).entries ≤ 100
enforce_quota-fits_example =
    enforce_quota-fits as_stored cache 100 (λ es f. refl) refl (omega arith) refl λ s. refl
