-- ===== src/Cache/Redis.antt =====
-- The Redis or Valkey server, and the client library before it: what the adapters rely on of them.
-- The server runs one command at a time. `text`, `number` and `items` are what it holds under a
-- key as a string, as a counter (0 without the key) and as a list (empty without the key), and
-- `deadline` the second at which the key may be dropped.
use nexus_ai_platform.Prelude.{
  ℕ, suc, ◌+◌, ◌<◌, ◌≤◌, String, Option, none, some, List, [], ◌∷◌, ◌++◌, ◌≡◌, ◌⊎◌, str_eq,
  if◌then◌else◌, last_items,
}
use nexus_ai_platform.Prelude.Int.{ℤ, pos, negsuc}
use nexus_ai_platform.Errors.{Exception, Result, ok, raise}

-- A call of the client, with its arguments.
pub data Command : Type 0 where
  ping : Command
  get ttl delete exists : String → Command
  set : String → String → Option ℤ → Command
  eval : String → ℤ → Command
  append : String → String → ℤ → ℤ → Command
  lrange : String → ℤ → ℤ → Command

-- What becomes of a call: the server runs it and the reply comes; it runs it and the reply is
-- lost; or it does not run it.
pub data Fate : Type 0 where
  answered : Fate
  unanswered refused : Exception → Fate

pub record Redis : Type 1 where
  pub State : Type 0
  pub clock : State → ℕ
  pub text : State → String → Option String
  pub number : State → String → ℕ
  pub items : State → String → List String
  pub deadline : State → String → ℕ
  pub fate : Command → State → Fate
  pub wait : ℕ → State → State
  -- GET, TTL and EXISTS
  pub get : String → State → Option String
  pub ttl : String → State → ℤ
  pub exists : String → State → ℕ
  pub get_text : (key : String) (s : State) → get key s ≡ text s key
  pub ttl_missing : (key : String) (s : State) → exists key s ≡ 0 → ttl key s ≡ negsuc 1
  -- SET with EX
  pub set : String → String → Option ℤ → State → State
  pub set_text :
      (key value : String) (ex : Option ℤ) (s : State) (j : String)
      → text (set key value ex s) j ≡ (if str_eq j key then some value else text s j)
  pub set_deadline :
      (key value : String) (n : ℕ) (s : State) (j : String)
      → deadline (set key value (some (pos n)) s) j
        ≡ (if str_eq j key then clock s + n else deadline s j)
  pub set_clock :
      (key value : String) (ex : Option ℤ) (s : State) → clock (set key value ex s) ≡ clock s
  -- DEL
  pub delete : String → State → ℕ × State
  pub delete_text :
      (key : String) (s : State) (j : String)
      → text (delete key s).1 j ≡ (if str_eq j key then none else text s j)
  pub delete_items :
      (key : String) (s : State) (j : String)
      → items (delete key s).1 j ≡ (if str_eq j key then [] else items s j)
  -- INCR, which makes a missing counter with no time to live, and leaves that of another one
  pub incr : String → State → ℕ × State
  pub incr_returns : (key : String) (s : State) → (incr key s).0 ≡ suc (number s key)
  pub incr_number :
      (key : String) (s : State) (j : String)
      → number (incr key s).1 j ≡ (if str_eq j key then suc (number s j) else number s j)
  pub incr_deadline :
      (key : String) (s : State) (j : String)
      → 0 < number s j
      → deadline (incr key s).1 j ≡ deadline s j
  pub incr_clock : (key : String) (s : State) → clock (incr key s).1 ≡ clock s
  -- EXPIRE
  pub expire : String → ℕ → State → State
  pub expire_number :
      (key : String) (n : ℕ) (s : State) (j : String) → number (expire key n s) j ≡ number s j
  pub expire_items :
      (key : String) (n : ℕ) (s : State) (j : String) → items (expire key n s) j ≡ items s j
  pub expire_deadline :
      (key : String) (n : ℕ) (s : State) (j : String)
      → deadline (expire key n s) j ≡ (if str_eq j key then clock s + n else deadline s j)
  pub expire_clock : (key : String) (n : ℕ) (s : State) → clock (expire key n s) ≡ clock s
  -- RPUSH, LTRIM and LRANGE; the range from `-(m + 1)` to `-1` is the last `m + 1` items
  pub rpush : String → String → State → State
  pub ltrim : String → ℤ → ℤ → State → State
  pub lrange : String → ℤ → ℤ → State → List String
  pub rpush_items :
      (key value : String) (s : State) (j : String)
      → items (rpush key value s) j ≡ (if str_eq j key then items s j ++ value ∷ [] else items s j)
  pub rpush_clock : (key value : String) (s : State) → clock (rpush key value s) ≡ clock s
  pub ltrim_items :
      (key : String) (m : ℕ) (s : State) (j : String)
      → items (ltrim key (negsuc m) (negsuc 0) s) j
        ≡ (if str_eq j key then last_items (suc m) (items s j) else items s j)
  pub ltrim_clock :
      (key : String) (start stop : ℤ) (s : State) → clock (ltrim key start stop s) ≡ clock s
  pub lrange_items :
      (key : String) (m : ℕ) (s : State)
      → lrange key (negsuc m) (negsuc 0) s ≡ last_items (suc m) (items s key)
  -- The passing of time: nothing changes under a key before its deadline, and nothing is made.
  pub wait_clock : (d : ℕ) (s : State) → clock (wait d s) ≡ clock s + d
  pub wait_keeps :
      (d : ℕ) (s : State) (j : String)
      → clock s + d < deadline s j
      → (text (wait d s) j ≡ text s j)
        × (number (wait d s) j ≡ number s j)
        × (items (wait d s) j ≡ items s j)
        × (deadline (wait d s) j ≡ deadline s j)
  pub wait_text :
      (d : ℕ) (s : State) (j : String) → (text (wait d s) j ≡ text s j) ⊎ (text (wait d s) j ≡ none)
  pub wait_number : (d : ℕ) (s : State) (j : String) → number (wait d s) j ≤ number s j
  pub wait_deadline :
      (d : ℕ) (s : State) (j : String)
      → 0 < number (wait d s) j
      → deadline (wait d s) j ≡ deadline s j

module _ (redis : Redis) where
  open redis use {State, fate}

  -- A call, with what the server does when it runs it.
  abbrev pub deliver {ℓ} : {A : Type ℓ} → Fate → A × State → State → Result A × State
  deliver answered (a, s') s = (ok a, s')
  deliver (unanswered e) (a, s') s = (raise e, s')
  deliver (refused e) (a, s') s = (raise e, s)

  abbrev pub send {ℓ} : {A : Type ℓ} → Command → (State → A × State) → State → Result A × State
  send command run s = deliver (fate command s) (run s) s

  -- What holds of the three things that can become of a call holds of the call.
  pub send-elim {ℓ κ} :
      {A : Type ℓ} (P : Result A × State → Type κ) (command : Command) (run : State → A × State)
      (s : State)
      → P (ok (run s).0, (run s).1)
      → ((e : Exception) → P (raise e, (run s).1))
      → ((e : Exception) → P (raise e, s))
      → P (send command run s)
  send-elim {A} P command run s done lost kept = by_fate (fate command s)
    where
      by_fate : (f : Fate) → P (deliver f (run s) s)
      by_fate answered = done
      by_fate (unanswered e) = lost e
      by_fate (refused e) = kept e
