-- ===== src/RangeParser/Tests.antt =====
-- Runs of `parse_range_header`, and its theorems at concrete headers.
use seekserve.Common.{◌≡◌, refl, none, some, arith}
use seekserve.Common.Int.{pos, negsuc}
use seekserve.Common.Bytes.{codes}
use seekserve.Common.Decimal.{strto}
use seekserve.RangeParser.{parse_range_header}
use seekserve.RangeParser.Bounds.{IsWithin, parse_range_header-IsWithin}
use seekserve.RangeParser.RoundTrip.{closed, print, select, parse-print}

runs :
    (parse_range_header (codes "bytes= 0 - 99 ") (pos 1000)
      ≡ some (record { start = pos 0; end = pos 99 }))
    × (parse_range_header (codes "bytes=-500") (pos 1000)
        ≡ some (record { start = pos 500; end = pos 999 }))
    × (parse_range_header (codes "bytes=1000-") (pos 1000) ≡ none)
    × (parse_range_header (codes "bytes=9-5") (pos 1000) ≡ none)
    × (parse_range_header (codes "bytes=0-1,3-4") (pos 1000) ≡ none)
    × (parse_range_header (codes "items=0-1") (pos 1000) ≡ none)
    × (parse_range_header (codes "bytes=0-0") (negsuc 0) ≡ none)
unfolding parse_range_header strto
runs = (refl, refl, refl, refl, refl, refl, refl)

parse_range_header-IsWithin_example :
    IsWithin (record { start = pos 500; end = pos 999 }) (pos 1000)
unfolding parse_range_header strto
parse_range_header-IsWithin_example =
    parse_range_header-IsWithin (codes "bytes=-500") (pos 1000) refl

parse-print_example :
    parse_range_header (print (closed 5 2000)) (pos 1000) ≡ select (closed 5 2000) 1000
parse-print_example = parse-print (closed 5 2000) 1000 (omega arith)
