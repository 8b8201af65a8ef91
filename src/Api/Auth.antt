-- ===== src/Api/Auth.antt =====
-- security/auth.py: the check of the API key. The header's text is an argument, as FastAPI gives it.
use nexus_ai_platform.Prelude.{
  String, Bool, true, false, Option, none, some, [], ◌∷◌, ◌&&◌, ◌≡◌, refl, ◌↔◌, str_eq, eq_iff,
  eq_refl, Bool-cases, inl, inr, subst, sym, arith, if◌then◌else◌,
}
use nexus_ai_platform.Errors.{Result, ok, raise, ok-injective, type_error, http_exception, ◌>>=◌}
use nexus_ai_platform.Settings.{Settings}
use nexus_ai_platform.Text.{is_ascii}

-- What the check takes from Python's library: `secrets.compare_digest` of two texts, which takes
-- ASCII texts only, and SHA-256 in hexadecimal digits.
pub record Secrets : Type 0 where
  pub compare_digest : String → String → Result Bool
  pub sha256_hex : String → String
  pub compare_ascii :
      (a b : String) → (is_ascii a && is_ascii b) ≡ true → compare_digest a b ≡ ok (str_eq a b)
  pub compare_other :
      (a b : String)
      → (is_ascii a && is_ascii b) ≡ false
      → compare_digest a b
        ≡ raise (type_error "comparing strings with non-ASCII characters is not supported")

ascii_right : (a b : Bool) → (a && b) ≡ true → b ≡ true
ascii_right a b h = ground arith

module _ (secrets : Secrets) where
  open secrets use {compare_digest, sha256_hex}

  -- After the comparison.
  unfoldable pub identify : String → Bool → Result String
  identify x_api_key equal =
      if equal
      then ok (sha256_hex x_api_key)
      else raise (http_exception 401 "Invalid API key" (("WWW-Authenticate", "ApiKey") ∷ []))

  -- With a configured key.
  unfoldable pub authenticate : String → Option String → Result String
  authenticate api_key none =
      raise (http_exception 401 "Missing API key" (("WWW-Authenticate", "ApiKey") ∷ []))
  authenticate api_key (some x_api_key) = compare_digest x_api_key api_key >>= identify x_api_key

  abbrev pub with_key : Option String → Option String → Result String
  with_key none x_api_key = raise (http_exception 503 "API authentication is not configured" [])
  with_key (some api_key) x_api_key =
      if str_eq api_key ""
      then raise (http_exception 503 "API authentication is not configured" [])
      else authenticate api_key x_api_key

  unfoldable pub require_api_key : {F : Type 0} → Settings F → Option String → Result String
  require_api_key settings x_api_key = with_key settings.api_key x_api_key

  -- The caller is let in under the identifier `caller`.
  pub data IsAuthentic : Option String → Option String → String → Type 0 where
    authentic :
        (key : String)
        → str_eq key "" ≡ false
        → is_ascii key ≡ true
        → IsAuthentic (some key) (some key) (sha256_hex key)

  compared :
      (key header caller : String)
      → str_eq key "" ≡ false
      → (compare_digest header key >>= identify header) ≡ ok caller
      → IsAuthentic (some key) (some header) caller
  unfolding identify
  compared key header caller nonempty e = elim (Bool-cases (is_ascii header && is_ascii key)) [
    | inr other ↦ absurd (cc (rw (secrets.compare_other header key other) at e))
    | inl ascii ↦ elim (Bool-cases (str_eq header key)) [
      | inr differ ↦ absurd (cc (rw (secrets.compare_ascii header key ascii, differ) at e))
      | inl same ↦
          let p : header ≡ key = (eq_iff header key).0 same in
          let q = ok-injective _ caller (rw (secrets.compare_ascii header key ascii, same) at e) in
          subst (IsAuthentic (some key) (some header)) q (
            subst (λ h. IsAuthentic (some key) (some h) (sha256_hex h)) (sym p)
              (authentic key nonempty (ascii_right (is_ascii header) (is_ascii key) ascii)))
    ]
  ]

  require_api_key-IsAuthentic :
      (api_key x_api_key : Option String) (caller : String)
      → with_key api_key x_api_key ≡ ok caller
      → IsAuthentic api_key x_api_key caller
  unfolding authenticate
  require_api_key-IsAuthentic none x_api_key caller e = cc
  require_api_key-IsAuthentic (some key) x_api_key caller e = elim (Bool-cases (str_eq key "")) [
    | inl empty ↦ absurd (cc (rw empty at e))
    | inr nonempty ↦ given x_api_key nonempty (rw nonempty at e)
  ]
    where
      given :
          (o : Option String)
          → str_eq key "" ≡ false
          → authenticate key o ≡ ok caller
          → IsAuthentic (some key) o caller
      given none h e = cc
      given (some header) h e = compared key header caller h e

  IsAuthentic-require_api_key :
      (api_key x_api_key : Option String) (caller : String)
      → IsAuthentic api_key x_api_key caller
      → with_key api_key x_api_key ≡ ok caller
  unfolding authenticate identify
  IsAuthentic-require_api_key _ _ _ (authentic key nonempty ascii) =
      rw (nonempty, secrets.compare_ascii key key (both (is_ascii key) ascii), eq_refl key) refl
    where
      both : (b : Bool) → b ≡ true → (b && b) ≡ true
      both b h = ground arith

  -- A request is let in exactly if an API key is configured, which is not empty and has ASCII
  -- characters only, and the request has the same key; and the caller's identifier is the key's
  -- digest.
  pub require_api_key_iff :
      {F : Type 0} (settings : Settings F) (x_api_key : Option String) (caller : String)
      → (require_api_key settings x_api_key ≡ ok caller)
        ↔ IsAuthentic settings.api_key x_api_key caller
  unfolding require_api_key
  require_api_key_iff settings x_api_key caller = (
    require_api_key-IsAuthentic settings.api_key x_api_key caller,
    IsAuthentic-require_api_key settings.api_key x_api_key caller,
  )
