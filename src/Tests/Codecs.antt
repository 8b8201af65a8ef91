-- ===== src/Tests/Codecs.antt =====
-- A concrete codec: every character of a text is marked, and a full stop ends the text.
use Prim.Native.Char.{code}
use Prim.Native.String.{[], ◌∷◌, ◌++◌ as ◌<>◌}
use nexus_ai_platform.Prelude.{String, ◌≡◌, refl, ap, ◌∙◌, ◌==◌, if◌then◌else◌}
use nexus_ai_platform.Errors.{Result, ok, raise, value_error}
use nexus_ai_platform.Llm.Json.{Json, string, object, end, field}
use nexus_ai_platform.Codec.{Codec}

unfoldable pub write : String → String → String
write [] rest = "." ∷ rest
write (c ∷ s) rest = "x" ∷ c ∷ write s rest

unfoldable pub read : String → String × String
read [] = ("", "")
read (m ∷ []) = ("", "")
read (m ∷ c ∷ rest) =
    let more = read rest in if code m == b'x' then (c ∷ more.0, more.1) else ("", c ∷ rest)

read-write : (s rest : String) → read (write s rest) ≡ (s, rest)
unfolding read write
read-write [] [] = refl
read-write [] (c ∷ rest) = refl
read-write (c ∷ s) rest = rw (read-write s rest) refl

abbrev pub write_json : Json → String
write_json (object (field k (string v) end)) = "1" ∷ write k (write v "")
write_json (object (field k (string v) (field l (string w) end))) =
    "2" ∷ write k (write v (write l (write w "")))
write_json _ = "0"

abbrev pub read_one : String → Result Json
read_one s = let k = read s in let v = read k.1 in ok (object (field k.0 (string v.0) end))

abbrev pub two_fields : String → String → String → String × String → Result Json
two_fields k v l w = ok (object (field k (string v) (field l (string w.0) end)))

abbrev pub read_fourth : String → String → String × String → Result Json
read_fourth k v l = two_fields k v l.0 (read l.1)

abbrev pub read_third : String → String × String → Result Json
read_third k v = read_fourth k v.0 (read v.1)

abbrev pub read_second : String × String → Result Json
read_second k = read_third k.0 (read k.1)

abbrev pub read_two : String → Result Json
read_two s = read_second (read s)

read_two-write :
    (k v l w : String)
    → read_two (write k (write v (write l (write w ""))))
      ≡ ok (object (field k (string v) (field l (string w) end)))
read_two-write k v l w =
    ap read_second (read-write k (write v (write l (write w ""))))
    ∙ ap (read_third k) (read-write v (write l (write w "")))
    ∙ ap (read_fourth k v) (read-write l (write w ""))
    ∙ ap (two_fields k v l) (read-write w "")

abbrev pub read_json : String → Result Json
read_json [] = raise (value_error "no JSON")
read_json (t ∷ s) =
    if code t == b'1'
    then read_one s
    else if code t == b'2'
    then read_two s
    else raise (value_error "no JSON")

pub loads-dumps :
    (key value : String)
    → read_json (write_json (object (field key (string value) end)))
      ≡ ok (object (field key (string value) end))
loads-dumps key value = rw (read-write key (write value ""), read-write value "") refl

pub loads-dumps_pair :
    (a b : String)
    → read_json (write_json (object (field "role" (string a) (field "content" (string b) end))))
      ≡ ok (object (field "role" (string a) (field "content" (string b) end)))
loads-dumps_pair a b = read_two-write "role" a "content" b

-- Folds one letter.
abbrev pub fold : String → String
fold [] = ""
fold (c ∷ s) = let rest = fold s in if code c == b'W' then "w" <> rest else c ∷ rest

abbrev pub codec : Codec
codec = record {
  dumps = write_json;
  loads = read_json;
  sha256_hex = λ text. "digest of " <> text;
  casefold = fold;
  lower = λ text. text;
  loads-dumps = loads-dumps;
  loads-dumps_pair = loads-dumps_pair;
}
