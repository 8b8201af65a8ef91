-- ===== src/Tests/Store.antt =====
-- Tests of the semantic cache, the agent memory and the adapters, over the Redis in memory.
use mathlib.Core.List.{Memᴰ}
use nexus_ai_platform.Prelude.{String, true, some, List, [], ◌∷◌, ◌≡◌, refl, arith, last_items}
use nexus_ai_platform.Prelude.Int.{pos, negsuc, negate}
use nexus_ai_platform.Errors.{ok}
use nexus_ai_platform.Text.{byte_size, char_bytes, is_space, words, join}
use nexus_ai_platform.Cache.Keys.{session_memory_key}
use nexus_ai_platform.Cache.RedisCache.{increment}
use nexus_ai_platform.Cache.RedisCache
use nexus_ai_platform.Cache.RedisCache.Increment.{IsIncrement, increment-IsIncrement}
use nexus_ai_platform.Cache.RedisCache.Texts.{text_store}
use nexus_ai_platform.Cache.RedisMemory
use nexus_ai_platform.Cache.RedisMemory.{append_trim_expire}
use nexus_ai_platform.Cache.RedisMemory.Sessions.{sessions}
use nexus_ai_platform.Cache.Memory
use nexus_ai_platform.Cache.Memory.{MemoryMessage, AgentMemory, append, get_recent}
use nexus_ai_platform.Cache.Memory.Recent.{Said, get_recent-Said}
use nexus_ai_platform.Cache.SemanticCache
use nexus_ai_platform.Cache.SemanticCache.{SemanticCache, cache_key, payload_of}
use nexus_ai_platform.Cache.SemanticCache.Stored.{folded_words, get-set}
use nexus_ai_platform.Cache.SemanticCache.Kept.{Use, keeps, passes, use_all, get-IsKept}
use nexus_ai_platform.Tests.Servers.{Server, server, empty_server}
use nexus_ai_platform.Tests.Codecs.{codec, write}

abbrev pub semantic_cache : SemanticCache
semantic_cache = record { ttl_seconds = pos 3600; max_bytes = pos 262144 }

abbrev pub question : String
question = "What is it"

abbrev pub spaced : String
spaced = "  what   is it "

pub same_words : folded_words codec question ≡ folded_words codec spaced
unfolding words join is_space
same_words = refl

pub taken :
    (SemanticCache.set codec (text_store server) semantic_cache question "42" (empty_server 1000)).0
    ≡ ok true
unfolding SemanticCache.set payload_of byte_size char_bytes RedisCache.set RedisCache.store_text
    write
taken = refl

abbrev pub after : Server
after =
    server.wait 10
      (SemanticCache.set codec (text_store server) semantic_cache question "42"
        (empty_server 1000)).1

pub replied_spaced :
    ((text_store server).get (cache_key codec spaced) after).0
    ≡ ok (after.texts (cache_key codec spaced))
unfolding RedisCache.get
replied_spaced = refl

-- Ten seconds after the answer was kept, and with other spaces.
get-set_example :
    (SemanticCache.get codec (text_store server) spaced after).0
    ≡ ok (some (record { response = "42"; source = "semantic_cache" }))
get-set_example =
    get-set codec (text_store server) semantic_cache 3600 10 question spaced "42"
      (empty_server 1000) true (after.texts (cache_key codec spaced)) refl taken same_words
      (omega arith) replied_spaced

replied_again :
    ((text_store server).get (cache_key codec question) after).0
    ≡ ok (after.texts (cache_key codec question))
unfolding RedisCache.get
replied_again = refl

abbrev uses : List Use
uses = passes 10 ∷ keeps question "42" ∷ []

found_again :
    (SemanticCache.get codec
      (text_store server)
      question
      (use_all codec (text_store server) semantic_cache uses (empty_server 1000))).0
    ≡ ok (some (record { response = "42"; source = "semantic_cache" }))
found_again =
    get-set codec (text_store server) semantic_cache 3600 10 question question "42"
      (empty_server 1000) true (after.texts (cache_key codec question)) refl taken refl
      (omega arith) replied_again

get-IsKept_example :
    (query' : String) × Memᴰ (keeps query' "42") uses
    × (cache_key codec query' ≡ cache_key codec question)
get-IsKept_example =
    get-IsKept codec (text_store server) semantic_cache uses question (empty_server 1000)
      (record { response = "42"; source = "semantic_cache" }) refl found_again

increment-IsIncrement_example :
    IsIncrement server "k"
      (empty_server 1000)
      (pos 60)
      (increment server "k" (pos 60) (empty_server 1000))
increment-IsIncrement_example = increment-IsIncrement server "k" (pos 60) (empty_server 1000)

abbrev pub memory : AgentMemory
memory = record { ttl_seconds = pos 86400; max_messages = pos 1; max_message_bytes = pos 10000 }

abbrev pub first : MemoryMessage
first = record { role = "user"; content = "hello" }

abbrev second : MemoryMessage
second = record { role = "assistant"; content = "hi" }

abbrev said_once : Server
said_once = (append codec (sessions server) memory "s1" first (empty_server 1000)).1

abbrev said_twice : Server
said_twice = (append codec (sessions server) memory "s1" second said_once).1

first_taken : (append codec (sessions server) memory "s1" first (empty_server 1000)).0 ≡ ok tt
unfolding append Memory.payload_of byte_size char_bytes RedisMemory.append_bounded
    append_trim_expire write
first_taken = refl

second_taken : (append codec (sessions server) memory "s1" second said_once).0 ≡ ok tt
unfolding append Memory.payload_of byte_size char_bytes RedisMemory.append_bounded
    append_trim_expire write
second_taken = refl

twice : Said codec (sessions server) memory "s1" (first ∷ second ∷ []) said_twice
twice = Said.says second (Said.says first (Said.empty refl) first_taken) second_taken

replied_last :
    ((sessions server).get_recent (session_memory_key "s1") (pos 1) said_twice).0
    ≡ ok (server.lrange (session_memory_key "s1") (negate (pos 1)) (negsuc 0) said_twice)
unfolding RedisMemory.get_recent
replied_last = refl

-- The memory keeps one message, and the second is the last.
get_recent-Said_example :
    (get_recent codec (sessions server) memory "s1" said_twice).0
    ≡ ok (last_items 1 (first ∷ second ∷ []))
get_recent-Said_example =
    get_recent-Said codec (sessions server) memory "s1" 0 86399 refl refl
      (server.lrange (session_memory_key "s1") (negate (pos 1)) (negsuc 0) said_twice) twice
      replied_last
