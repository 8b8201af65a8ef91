-- ===== src/Cache/Keys.antt =====
-- cache/keys.py: the names under which the program stores things in Redis or Valkey.
pub mod Distinct
pub mod Kinds
use Prim.Native.String.{◌++◌ as ◌<>◌}
use nexus_ai_platform.Prelude.{ℕ, zero, suc, ◌/◌, ◌%◌, String, ltb, ◌==◌, if◌then◌else◌}

-- One decimal digit.
unfoldable pub digit : ℕ → String
digit d =
    if d == 0
    then "0"
    else if d == 1
    then "1"
    else if d == 2
    then "2"
    else if d == 3
    then "3"
    else if d == 4
    then "4"
    else if d == 5
    then "5"
    else if d == 6
    then "6"
    else if d == 7
    then "7"
    else if d == 8
    then "8"
    else "9"

-- `str(n)`: at most one round for each unit of `n`, so `n` rounds after the first are enough.
unfoldable pub decimal : ℕ → ℕ → String
decimal zero n = digit n
decimal (suc fuel) n =
    let rest = decimal fuel (n / 10) in if ltb n 10 then digit n else rest <> digit (n % 10)

unfoldable pub str : ℕ → String
str n = decimal n n

-- `_prefix`
abbrev pub prefix : String
prefix = "nexus:v1"

unfoldable pub document_key : String → String
document_key document_hash = prefix <> ":rag:doc:" <> document_hash

unfoldable pub semantic_cache_key : String → String
semantic_cache_key cache_hash = prefix <> ":semantic_cache:" <> cache_hash

unfoldable pub rate_limit_minute_key : String → ℕ → String
rate_limit_minute_key user_id bucket =
    prefix <> ":rate_limit:" <> user_id <> ":minute:" <> str bucket

unfoldable pub rate_limit_hour_key : String → ℕ → String
rate_limit_hour_key user_id bucket = prefix <> ":rate_limit:" <> user_id <> ":hour:" <> str bucket

unfoldable pub session_memory_key : String → String
session_memory_key session_id = prefix <> ":langchain:memory:session:" <> session_id
