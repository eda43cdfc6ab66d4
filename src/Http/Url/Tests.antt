-- ===== src/Http/Url/Tests.antt =====
-- Targets, names and URLs.
use seekserve.Common.{◌≡◌, refl, none}
use seekserve.Common.Bytes.{codes, bytes_eq, find}
use seekserve.Http.Url.{parse_target, mime_type, sanitize_url, all_bytes}

mime_type_test : mime_type (codes "a.b/m.mkv") ≡ codes "video/x-matroska"
unfolding mime_type bytes_eq
mime_type_test = refl

sanitize_url_test : sanitize_url (codes "/x?token=abc&y=1") ≡ codes "/x?token=***&y=1"
unfolding sanitize_url bytes_eq find
sanitize_url_test = refl

parse_target_bad : parse_target (codes "/stream/xyz/1") ≡ none
unfolding parse_target bytes_eq all_bytes
parse_target_bad = refl
