-- ===== src/Codec.antt =====
-- What the program takes from Python's library to make texts of values: `json.dumps` with its
-- default of ASCII output and `json.loads`, SHA-256 in hexadecimal digits, `str.casefold` and
-- `str.lower`.
use nexus_ai_platform.Prelude.{String, ◌≡◌}
use nexus_ai_platform.Errors.{Result, ok}
use nexus_ai_platform.Llm.Json.{Json, object, string, end, field}

pub record Codec : Type 0 where
  pub dumps : Json → String
  pub loads : String → Result Json
  pub sha256_hex : String → String
  pub casefold : String → String
  pub lower : String → String
  -- An object of one text, and one of two texts under different keys, come back as they were.
  pub loads-dumps :
      (key value : String)
      → loads (dumps (object (field key (string value) end)))
        ≡ ok (object (field key (string value) end))
  pub loads-dumps_pair :
      (value value' : String)
      → loads (dumps (object (field "role" (string value) (field "content" (string value') end))))
        ≡ ok (object (field "role" (string value) (field "content" (string value') end)))
