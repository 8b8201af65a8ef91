-- ===== src/Cache/Memory/Recent.antt =====
-- The memory of a session is the last messages that were said in it.
use mathlib.Core.List.{map-append}
use nexus_ai_platform.Prelude.{
  ℕ, zero, suc, ◌+◌, ◌-◌, ◌<◌, String, false, List, [], ◌∷◌, ◌++◌, map, ◌≡◌, refl, ap, sym, ◌∙◌,
  subst, str_eq, length, last_items, drop, last_items-append, last_items-nil, last_items_idem,
  if_elim,
}
use nexus_ai_platform.Prelude.Int.{pos, ltb_ℤ}
use nexus_ai_platform.Errors.{Exception, Result, ok, raise}
use nexus_ai_platform.Text.{byte_size}
use nexus_ai_platform.Codec.{Codec}
use nexus_ai_platform.Llm.Json.{get_field}
use nexus_ai_platform.Cache.Keys.{session_memory_key}
use nexus_ai_platform.Cache.Keys.Kinds.{session_memory_key-differ}
use nexus_ai_platform.Cache.SessionStore.{SessionStore}
use nexus_ai_platform.Cache.Memory.{
  MemoryMessage, AgentMemory, payload_of, message_of, read_message, read_messages, append,
  get_recent, clear,
}

module _ {A B : Type 0} (f : A → B) where
  length-map : (xs : List A) → length (map f xs) ≡ length xs
  length-map [] = refl
  length-map (x ∷ xs) = ap suc (length-map xs)

  drop-map : (n : ℕ) (xs : List A) → drop n (map f xs) ≡ map f (drop n xs)
  drop-map zero xs = refl
  drop-map (suc n) [] = refl
  drop-map (suc n) (x ∷ xs) = drop-map n xs

  last_items-map : (n : ℕ) (xs : List A) → last_items n (map f xs) ≡ map f (last_items n xs)
  unfolding last_items
  last_items-map n xs = rw (length-map xs) (drop-map (length xs - n) xs)

module _ (codec : Codec) where
  read_message-payload_of :
      (message : MemoryMessage) → read_message codec (payload_of codec message) ≡ ok message
  unfolding read_message payload_of message_of get_field
  read_message-payload_of message = rw (codec.loads-dumps_pair message.role message.content) refl

  read_messages-map :
      (messages : List MemoryMessage)
      → read_messages codec (map (payload_of codec) messages) ≡ ok messages
  unfolding read_messages
  read_messages-map [] = refl
  read_messages-map (message ∷ messages) =
      rw (read_message-payload_of message, read_messages-map messages) refl

  module _ (store : SessionStore) (memory : AgentMemory) (session : String) where
    open store use {State, items, deadline, clock}

    abbrev key : String
    key = session_memory_key session

    -- The store's states in which exactly `messages` have been said in the session, oldest first:
    -- it was empty; then messages were said in it and in others, it was read, and time passed
    -- without reaching its deadline; or it was cleared.
    pub data Said : List MemoryMessage → State → Type 0 where
      empty : {s : State} → items s key ≡ [] → Said [] s
      says :
          {messages : List MemoryMessage} {s : State} (message : MemoryMessage)
          → Said messages s
          → (append codec store memory session message s).0 ≡ ok tt
          → Said (messages ++ message ∷ []) (append codec store memory session message s).1
      elsewhere :
          {messages : List MemoryMessage} {s : State} (other : String) (message : MemoryMessage)
          → Said messages s
          → str_eq session other ≡ false
          → Said messages (append codec store memory other message s).1
      reads :
          {messages : List MemoryMessage} {s : State} (any : String)
          → Said messages s
          → Said messages (get_recent codec store memory any s).1
      waits :
          {messages : List MemoryMessage} {s : State} (d : ℕ)
          → Said messages s
          → clock s + d < deadline s key
          → Said messages (store.wait d s)
      clears :
          {messages : List MemoryMessage} {s : State} (n : ℕ)
          → Said messages s
          → (clear codec store session s).0 ≡ ok n
          → Said [] (clear codec store session s).1

    -- An append is refused for its size, or it is the store's.
    append_elim {κ} :
        (P : Result (Unit {0}) × State → Type κ) (any : String) (message : MemoryMessage)
        (s : State)
        → ((e : Exception) → P (raise e, s))
        → P (
            store.append_bounded
              (session_memory_key any)
              (payload_of codec message)
              memory.max_messages
              memory.ttl_seconds
              s)
        → P (append codec store memory any message s)
    unfolding append
    append_elim P any message s refused stored =
        if_elim P (ltb_ℤ memory.max_message_bytes (pos (byte_size (payload_of codec message))))
          (refused _) (λ _. stored)

    get_recent_keeps : (any : String) (s : State) → (get_recent codec store memory any s).1 ≡ s
    unfolding get_recent
    get_recent_keeps any s = store.get_recent_keeps (session_memory_key any) memory.max_messages s

    cleared :
        (s : State) (n : ℕ)
        → (clear codec store session s).0 ≡ ok n
        → items (clear codec store session s).1 key ≡ []
    unfolding clear
    cleared s n e = store.delete_items key s n e

    module _ (m n : ℕ) (max : memory.max_messages ≡ pos (suc m))
        (ttl : memory.ttl_seconds ≡ pos (suc n)) where
      -- What the store holds of a session in which `messages` have been said.
      abbrev held : List MemoryMessage → List String
      held messages = last_items (suc m) (map (payload_of codec) messages)

      append_items :
          (messages : List MemoryMessage) (message : MemoryMessage) (s : State)
          → items s key ≡ held messages
          → (append codec store memory session message s).0 ≡ ok tt
          → items (append codec store memory session message s).1 key
            ≡ held (messages ++ message ∷ [])
      append_items messages message s before =
          append_elim
            (λ (x : Result (Unit {0}) × State).
              x.0 ≡ ok tt → items x.1 key ≡ held (messages ++ message ∷ []))
            session message s (λ x e. absurd (cc e))
            (rw (max, ttl)
              (λ e.
                (store.append_items key (payload_of codec message) m n s e).0
                ∙ ap (λ xs. last_items (suc m) (xs ++ payload_of codec message ∷ [])) before
                ∙ last_items-append (suc m) (map (payload_of codec) messages)
                    (payload_of codec message ∷ [])
                ∙ ap (last_items (suc m))
                    (sym (map-append (payload_of codec) messages (message ∷ [])))))

      Said-items :
          {messages : List MemoryMessage} {s : State}
          → Said messages s
          → items s key ≡ held messages
      Said-items (empty e) = e ∙ sym (last_items-nil (suc m))
      Said-items (says {messages} {s} message h e) =
          append_items messages message s (Said-items h) e
      Said-items (elsewhere {s} other message h e) =
          append_elim (λ (x : Result (Unit {0}) × State). items x.1 key ≡ items s key) other message
            s (λ _. refl)
            (store.append_other (session_memory_key other) (payload_of codec message)
              memory.max_messages memory.ttl_seconds s key
              (session_memory_key-differ session other e))
          ∙ Said-items h
      Said-items (reads {s} any h) = ap (λ t. items t key) (get_recent_keeps any s) ∙ Said-items h
      Said-items (waits {s} d h e) = (store.wait_keeps d s key e).0 ∙ Said-items h
      Said-items (clears {s} k h e) = cleared s k e ∙ sym (last_items-nil (suc m))

      -- The session was empty; since then, every append to it returned, other sessions were
      -- appended to and any was read, calls of `clear` on it returned, and time never came to the
      -- deadline of its key. Then, if the store replies, `get_recent` returns the last
      -- `max_messages` of the messages that have been said in the session since it was last empty,
      -- in order, and all of them if there are fewer. Both bounds of the memory are positive.
      pub get_recent-Said :
          {messages : List MemoryMessage} {s : State} (values : List String)
          → Said messages s
          → (store.get_recent key memory.max_messages s).0 ≡ ok values
          → (get_recent codec store memory session s).0 ≡ ok (last_items (suc m) messages)
      unfolding get_recent
      get_recent-Said {messages} {s} values h e =
          let o : values ≡ map (payload_of codec) (last_items (suc m) messages) =
            store.get_recent_items key m s values
              (subst (λ k. (store.get_recent key k s).0 ≡ ok values) max e)
            ∙ ap (last_items (suc m)) (Said-items h)
            ∙ last_items_idem (suc m) (map (payload_of codec) messages)
            ∙ last_items-map (payload_of codec) (suc m) messages in
          rw (e, o) (read_messages-map (last_items (suc m) messages))
