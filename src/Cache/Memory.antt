-- ===== src/Cache/Memory.antt =====
-- cache/services/memory.py: the last messages of a session.
pub mod Recent
use nexus_ai_platform.Prelude.{
  ℕ, String, Bool, true, false, Option, none, some, List, [], ◌∷◌, if◌then◌else◌,
}
use nexus_ai_platform.Prelude.Int.{ℤ, pos, leb_ℤ, ltb_ℤ}
use nexus_ai_platform.Errors.{Result, ok, raise, value_error, raise_if, ◌>>=◌, ◌>>◌}
use nexus_ai_platform.Settings.{Settings}
use nexus_ai_platform.Text.{byte_size}
use nexus_ai_platform.Codec.{Codec}
use nexus_ai_platform.Llm.Json.{Json, Fields, object, string, end, field, get_field}
use nexus_ai_platform.Cache.Keys.{session_memory_key}
use nexus_ai_platform.Cache.SessionStore.{SessionStore}

pub record MemoryMessage : Type 0 where
  pub role : String
  pub content : String

pub record AgentMemory : Type 0 where
  pub ttl_seconds : ℤ
  pub max_messages : ℤ
  pub max_message_bytes : ℤ

-- `__init__`
unfoldable pub new_agent_memory : {F : Type 0} → Settings F → Result AgentMemory
new_agent_memory settings = do
  raise_if (leb_ℤ settings.session_ttl_seconds (pos 0)) (value_error "session TTL must be positive")
  raise_if (leb_ℤ settings.session_max_messages (pos 0))
      (value_error "session max messages must be positive")
  raise_if (leb_ℤ settings.session_max_message_bytes (pos 0))
      (value_error "session max message bytes must be positive")
  ok (record {
    ttl_seconds = settings.session_ttl_seconds;
    max_messages = settings.session_max_messages;
    max_message_bytes = settings.session_max_message_bytes;
  })

module _ (codec : Codec) where
  open codec use {dumps, loads}

  unfoldable pub payload_of : MemoryMessage → String
  payload_of message =
      dumps
        (object (field "role" (string message.role) (field "content" (string message.content) end)))

  -- The test of the two fields, and the message.
  unfoldable pub message_of : Option Json → Option Json → Result MemoryMessage
  message_of (some (string role)) (some (string content)) =
      ok (record { role = role; content = content })
  message_of _ _ = raise (value_error "invalid session memory payload")

  -- One round of the loop in `get_recent`.
  unfoldable pub read_message : String → Result MemoryMessage
  read_message payload = do
    value ← loads payload
    role ← get_field "role" value
    content ← get_field "content" value
    message_of role content

  unfoldable pub read_messages : List String → Result (List MemoryMessage)
  read_messages [] = ok []
  read_messages (payload ∷ payloads) = do
    message ← read_message payload
    messages ← read_messages payloads
    ok (message ∷ messages)

  module _ (store : SessionStore) where
    open store use {State}

    unfoldable pub append : AgentMemory → String → MemoryMessage → State → Result (Unit {0}) × State
    append memory session_id message s =
        if ltb_ℤ memory.max_message_bytes (pos (byte_size (payload_of message)))
        then (raise (value_error "message exceeds maximum allowed size"), s)
        else store.append_bounded (session_memory_key session_id) (payload_of message)
            memory.max_messages memory.ttl_seconds s

    unfoldable pub get_recent : AgentMemory → String → State → Result (List MemoryMessage) × State
    get_recent memory session_id s =
        let (values, s') = store.get_recent (session_memory_key session_id) memory.max_messages s in
        (values >>= read_messages, s')

    unfoldable pub clear : String → State → Result ℕ × State
    clear session_id s = store.delete (session_memory_key session_id) s
