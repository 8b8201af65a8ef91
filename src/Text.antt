-- ===== src/Text.antt =====
-- Python's methods of text: `isspace` of a character, `strip`, `split`, `join` and `isascii`, and the
-- length in characters and in UTF-8 bytes.
pub mod Words
use Prim.Native.Char.{Char, code}
use Prim.Native.String.{[], ◌∷◌, ◌++◌ as ◌<>◌}
use nexus_ai_platform.Prelude.{
  ℕ, suc, ◌+◌, String, List, Bool, true, false, not, ◌&&◌, ◌||◌, ltb, leb, ◌==◌, if◌then◌else◌,
}

-- The code points that Unicode counts as white space, and the separators U+001C to U+001F.
unfoldable pub is_space : ℕ → Bool
is_space c =
    (leb 9 c && leb c 13)
    || (leb 28 c && leb c 32)
    || c == 0x85
    || c == 0xA0
    || c == 0x1680
    || (leb 0x2000 c && leb c 0x200A)
    || c == 0x2028
    || c == 0x2029
    || c == 0x202F
    || c == 0x205F
    || c == 0x3000

-- `not s.strip()`
unfoldable pub is_blank : String → Bool
unfolding is_space
is_blank [] = true
is_blank (c ∷ s) = is_space (code c) && is_blank s

-- `s.isascii()`
unfoldable pub is_ascii : String → Bool
is_ascii [] = true
is_ascii (c ∷ s) = leb (code c) 127 && is_ascii s

-- `s.lstrip()`, `s.rstrip()` and `s.strip()`
unfoldable pub lstrip : String → String
lstrip [] = []
lstrip (c ∷ s) = let rest = lstrip s in if is_space (code c) then rest else c ∷ s

abbrev pub keep_char : Char → String → String
keep_char c [] = if is_space (code c) then [] else c ∷ []
keep_char c (d ∷ s) = c ∷ d ∷ s

unfoldable pub rstrip : String → String
rstrip [] = []
rstrip (c ∷ s) = keep_char c (rstrip s)

unfoldable pub strip : String → String
strip s = lstrip (rstrip s)

-- A character in front of the words of what follows it: it starts a word, unless one goes on.
abbrev pub starts_word : String → Bool
starts_word [] = false
starts_word (c ∷ s) = not (is_space (code c))

abbrev pub prepend : Char → List String → List String
prepend c List.[] = List.◌∷◌ (c ∷ []) List.[]
prepend c (List.◌∷◌ w ws) = List.◌∷◌ (c ∷ w) ws

-- `s.split()`
unfoldable pub words : String → List String
words [] = List.[]
words (c ∷ s) =
    let rest = words s in
    if is_space (code c)
    then rest
    else if starts_word s
    then prepend c rest
    else List.◌∷◌ (c ∷ []) rest

-- `separator.join(texts)`
unfoldable pub join : String → List String → String
join separator List.[] = ""
join separator (List.◌∷◌ w List.[]) = w
join separator (List.◌∷◌ w (List.◌∷◌ v ws)) = w <> separator <> join separator (List.◌∷◌ v ws)

-- `len(s)`
unfoldable pub text_length : String → ℕ
text_length [] = 0
text_length (c ∷ s) = suc (text_length s)

-- The bytes of one character in UTF-8, and `len(s.encode("utf-8"))`.
unfoldable pub char_bytes : ℕ → ℕ
char_bytes c = if ltb c 0x80 then 1 else if ltb c 0x800 then 2 else if ltb c 0x10000 then 3 else 4

unfoldable pub byte_size : String → ℕ
byte_size [] = 0
byte_size (c ∷ s) = char_bytes (code c) + byte_size s

-- `s.split(c)` at one character: one text more than there are separators.
unfoldable pub split_at : ℕ → String → List String
split_at c [] = List.◌∷◌ [] List.[]
split_at c (d ∷ s) =
    let rest = split_at c s in if code d == c then List.◌∷◌ [] rest else prepend d rest
