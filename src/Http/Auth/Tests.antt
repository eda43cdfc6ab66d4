-- ===== src/Http/Auth/Tests.antt =====
-- Runs of the comparison, and its law at two tokens.
use seekserve.Common.{◌≡◌, refl, true, none, some}
use seekserve.Common.Bytes.{codes}
use seekserve.Http.Auth.{constant_time_compare, get, extract_token}

compare_test : constant_time_compare (codes "tok") (codes "tok") ≡ true
unfolding constant_time_compare
compare_test = refl

bearer_test :
    extract_token (record {
      method = get;
      target = codes "/stream/ab/0?token=x";
      authorization = some (codes "Bearer y");
      range = none;
      keep_alive = true;
    })
    ≡ codes "y"
unfolding extract_token
bearer_test = refl

query_test :
    extract_token (record {
      method = get;
      target = codes "/stream/ab/0?a=1&token=x&b=2";
      authorization = none;
      range = none;
      keep_alive = true;
    })
    ≡ codes "x"
unfolding extract_token
query_test = refl
