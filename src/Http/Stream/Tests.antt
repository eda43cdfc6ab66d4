-- ===== src/Http/Stream/Tests.antt =====
-- A body of three bytes, streamed.
use seekserve.Common.{none, some, ℕ, ◌≤◌, ◌≡◌, ◌≢◌, refl, ap, take, drop}
use seekserve.Common.Bytes.{Bytes, codes}
use seekserve.Types.{ok}
use seekserve.Http.Stream.{
  left_loop, write_failed, out_of_fuel, Streamed, Reader, Writes, stream_body,
}
use seekserve.Http.Stream.Body.{Reads, stream_body-IsPart, stream_body-whole, stream_body_ends}

abbrev text : Bytes
text = codes "hello"

abbrev from_text : Reader
from_text k offset len = ok (take len (drop offset text))

abbrev always : Writes
always k = none

from_text-Reads : Reads text from_text
from_text-Reads k offset len chunk e = cc

stream_body_test :
    stream_body from_text always 1 3 ≡ record { sent = codes "ell"; outcome = left_loop }
unfolding stream_body
stream_body_test = refl

-- A write that fails behind two bytes.
abbrev fails : Writes
fails k = some 2

stream_body-failed_test :
    stream_body from_text fails 1 3 ≡ record { sent = codes "el"; outcome = write_failed }
unfolding stream_body
stream_body-failed_test = refl

stream_body-IsPart_example :
    (n : ℕ) × (n ≤ 3) × ((stream_body from_text fails 1 3).sent ≡ take n (drop 1 text))
stream_body-IsPart_example = stream_body-IsPart text from_text fails from_text-Reads 1 3

stream_body-whole_example : (stream_body from_text always 1 3).sent ≡ take 3 (drop 1 text)
stream_body-whole_example =
    stream_body-whole text from_text always from_text-Reads 1 3
      (ap (λ (s : Streamed). s.outcome) stream_body_test)

stream_body_ends_example : (stream_body from_text always 1 3).outcome ≢ out_of_fuel
stream_body_ends_example = stream_body_ends from_text always 1 3
