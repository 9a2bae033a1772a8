-- ===== src/Api/Trusted.antt =====
-- What a request that passes its headers' checks carries.
use Prim.Native.String.{count as characters}
use gacha_engine_service.Prelude.{
  ℕ, ◌+◌, ◌≤◌, ◌≡◌, ◌≢◌, refl, ap, String, true, Option, none, some, arith, str_eq, eq_iff, eq_refl,
}
use gacha_engine_service.Prelude.Result.{ok}
use gacha_engine_service.Runtime.{Runtime}
use gacha_engine_service.Repository.Values.{aware}
use gacha_engine_service.Api.Headers.{
  Texts, idempotency_key_header, request_accepted_at_header, authenticate_gateway_request,
}

-- `compare_digest` says that its arguments are equal only where they are; "None" is no UUID; stripping
-- nothing leaves nothing.
pub record TextsLaws (T : Texts) (R : Runtime) : Type 0 where
  pub digest_eq : (a b : String) → T.compare_digest a b ≡ ok true → a ≡ b
  pub none_is_no_uuid : R.parse_uuid "None" ≡ none
  pub strip_empty : T.strip "" ≡ ""

module _ (T : Texts) (R : Runtime) (L : TextsLaws T R) where
  -- Where `authenticate_gateway_request` returns: the service has a token, the request carries exactly
  -- that token, and the user id that is returned is the UUID of the request's `X-User-Id`.
  pub authenticate_gateway_request_lem :
      (expected_token : String) (internal_token user_id : Option String) {id : String}
      → authenticate_gateway_request T R expected_token internal_token user_id ≡ ok id
      → (expected_token ≢ "")
        × (internal_token ≡ some expected_token)
        × (s : String) × (user_id ≡ some s)
        × (R.parse_uuid s ≡ some id)
  unfolding authenticate_gateway_request
  authenticate_gateway_request_lem expected_token none user_id h =
      absurd (ground (arith, eq_refl ""))
  authenticate_gateway_request_lem expected_token (some token) none h =
      absurd (ground (arith, L.none_is_no_uuid))
  authenticate_gateway_request_lem expected_token (some token) (some s) h = (
    ground (arith, eq_iff expected_token ""),
    ap some (L.digest_eq token expected_token (ground arith)),
    s,
    refl,
    ground arith,
  )

  strips_to_nothing : str_eq (T.strip "") "" ≡ true
  strips_to_nothing = rw L.strip_empty (eq_refl "")

  accepted_stamp :
      (now : ℕ) (s : String) {accepted_at : ℕ}
      → request_accepted_at_header T now (some s) ≡ ok accepted_at
      → (T.from_iso (T.replace (T.strip s) "Z" "+00:00") ≡ some (aware accepted_at))
        × (accepted_at ≤ now + 5_000_000)
  unfolding request_accepted_at_header
  accepted_stamp now s k = (ground arith, ground arith)

  -- Where both dependencies return, at a time: the idempotency key is the stripped header, not empty
  -- and at most 128 characters long, and the time of acceptance, which the request carries, is at
  -- most five seconds ahead of the clock.
  pub pull_headers_are_bounded :
      (now : ℕ) (key_header accepted_header : Option String) {key : String} {accepted_at : ℕ}
      → idempotency_key_header T key_header ≡ ok key
      → request_accepted_at_header T now accepted_header ≡ ok accepted_at
      → ((s : String) × (key_header ≡ some s)
          × (T.strip s ≡ key)
          × (key ≢ "")
          × (characters key ≤ 128))
        × (accepted_at ≤ now + 5_000_000)
        × (s : String) × (accepted_header ≡ some s)
        × (T.from_iso (T.replace (T.strip s) "Z" "+00:00") ≡ some (aware accepted_at))
  unfolding idempotency_key_header request_accepted_at_header
  pull_headers_are_bounded now none a h k = absurd (ground (arith, strips_to_nothing))
  pull_headers_are_bounded now (some s) none h k = absurd (ground (arith, strips_to_nothing))
  pull_headers_are_bounded now (some s) (some t) h k = (
    (s, refl, ground arith, ground (arith, eq_iff (T.strip s) ""), ground arith),
    (accepted_stamp now t k).1,
    t,
    refl,
    (accepted_stamp now t k).0,
  )
