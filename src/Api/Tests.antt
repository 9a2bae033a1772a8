-- ===== src/Api/Tests.antt =====
-- The theorems of the routes at sample requests.
use Prim.Native.String.{count as characters}
use gacha_engine_service.Prelude.{
  ◌+◌, ◌≤◌, ◌≡◌, ◌≢◌, refl, String, none, some, str_eq, eq_iff, arith, if◌then◌else◌,
}
use gacha_engine_service.Prelude.Result.{ok}
use gacha_engine_service.Runtime.{Runtime}
use gacha_engine_service.Runtime.Sample.{sample}
use gacha_engine_service.Repository.Values.{aware}
use gacha_engine_service.Api.Headers.{
  Texts, idempotency_key_header, request_accepted_at_header, authenticate_gateway_request,
}
use gacha_engine_service.Api.Trusted.{
  TextsLaws, authenticate_gateway_request_lem, pull_headers_are_bounded,
}

abbrev texts : Texts
texts = record {
  strip = λ s. s;
  replace = λ s old new. s;
  from_iso = λ s. some (aware 7_000_000);
  compare_digest = λ a b. ok (str_eq a b);
}

abbrev uuids : Runtime
uuids = record sample { parse_uuid = λ s. if str_eq s "None" then none else some s }

texts-TextsLaws : TextsLaws texts uuids
texts-TextsLaws = record {
  digest_eq = λ a b e. (eq_iff a b).0 (ground arith);
  none_is_no_uuid = refl;
  strip_empty = refl;
}

abbrev token : String
token = "token"

abbrev sample_key : String
sample_key = "key"

authenticate_gateway_request_lem_example :
    (token ≢ "")
    × (some token ≡ some token)
    × (s : String) × (some "user" ≡ some s)
    × (uuids.parse_uuid s ≡ some "user")
unfolding authenticate_gateway_request
authenticate_gateway_request_lem_example =
    authenticate_gateway_request_lem texts uuids texts-TextsLaws "token" (some "token")
      (some "user") {id = "user"} refl

pull_headers_are_bounded_example :
    ((s : String) × (some "key" ≡ some s)
      × (s ≡ "key")
      × (sample_key ≢ "")
      × (characters sample_key ≤ 128))
    × (7_000_000 ≤ 2_000_000 + 5_000_000)
    × (s : String) × (some "time" ≡ some s)
    × (texts.from_iso s ≡ some (aware 7_000_000))
unfolding idempotency_key_header request_accepted_at_header
pull_headers_are_bounded_example =
    pull_headers_are_bounded texts uuids texts-TextsLaws 2_000_000 (some "key") (some "time")
      {key = "key"} {accepted_at = 7_000_000} refl refl
