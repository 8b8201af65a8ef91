-- ===== src/Tests/Api.antt =====
-- Tests of the API's guards.
use Prim.Native.String.{◌++◌ as ◌<>◌}
use nexus_ai_platform.Prelude.{
  String, Bool, true, false, some, ◌≡◌, ◌&&◌, ◌↔◌, str_eq, if◌then◌else◌,
}
use nexus_ai_platform.Errors.{Result, ok, raise, type_error}
use nexus_ai_platform.Text.{is_ascii}
use nexus_ai_platform.Cache.RateLimiter.{check}
use nexus_ai_platform.Api.Auth.{Secrets, require_api_key, IsAuthentic, require_api_key_iff}
use nexus_ai_platform.Api.Dependencies.{
  enforce_rate_limit, IsEnforced, enforce_rate_limit-IsEnforced,
}
use nexus_ai_platform.Tests.Fixtures.{settings}
use nexus_ai_platform.Tests.Cache.{memory, limiter, empty_at}

abbrev not_ascii : Result Bool
not_ascii = raise (type_error "comparing strings with non-ASCII characters is not supported")

abbrev compare : String → String → Result Bool
compare a b = if is_ascii a && is_ascii b then ok (str_eq a b) else not_ascii

pub compare_ascii :
    (a b : String) → (is_ascii a && is_ascii b) ≡ true → compare a b ≡ ok (str_eq a b)
compare_ascii a b h = rw h

pub compare_other : (a b : String) → (is_ascii a && is_ascii b) ≡ false → compare a b ≡ not_ascii
compare_other a b h = rw h

abbrev pub secrets : Secrets
secrets = record {
  compare_digest = compare;
  sha256_hex = λ text. "digest of " <> text;
  compare_ascii = compare_ascii;
  compare_other = compare_other;
}

require_api_key_iff_example :
    (require_api_key secrets settings (some "secret") ≡ ok "digest of secret")
    ↔ IsAuthentic secrets (some "secret") (some "secret") "digest of secret"
require_api_key_iff_example =
    require_api_key_iff secrets settings (some "secret") "digest of secret"

enforce_rate_limit-IsEnforced_example :
    IsEnforced limiter
      (check memory limiter "a" (empty_at 70)).0
      (enforce_rate_limit memory (some limiter) "a" (empty_at 70)).0
    × ((enforce_rate_limit memory (some limiter) "a" (empty_at 70)).1
        ≡ (check memory limiter "a" (empty_at 70)).1)
enforce_rate_limit-IsEnforced_example =
    enforce_rate_limit-IsEnforced memory limiter "a" (empty_at 70)
