-- ===== src/Tests/Fixtures.antt =====
-- Concrete stand-ins for what the program takes from outside: numbers with three decimals for the
-- floats, and a scripted world for the providers and the clocks.
use nexus_ai_platform.Prelude.{
  ℕ, suc, ◌+◌, ◌-◌, ◌*◌, ◌/◌, true, false, none, some, List, [], ◌∷◌, ◌≡◌, arith, ltb,
}
use nexus_ai_platform.Errors.{LlmErrorKind, Result, raise, llm_error, builtin_timeout}
use nexus_ai_platform.Floats.{Floats}
use nexus_ai_platform.Prelude.Int.{pos}
use nexus_ai_platform.Settings.{Settings, defaults}
use nexus_ai_platform.Llm.Models.{LlmRequest, LlmResponse, Provider}
use nexus_ai_platform.Llm.Gateway.{World}

pub lt_irrefl : (a : ℕ) → ltb a a ≡ false
lt_irrefl a = ground arith

pub lt_asymm : (a b : ℕ) → ltb a b ≡ true → ltb b a ≡ false
lt_asymm a b h = ground arith

pub ge_trans : (a b c : ℕ) → ltb a b ≡ false → ltb b c ≡ false → ltb a c ≡ false
ge_trans a b c h k = ground arith

pub of_ℕ_pos : (n : ℕ) → ltb (0 * 1000) (suc n * 1000) ≡ true
of_ℕ_pos n = ground arith

pub sub_nonneg : (a b : ℕ) → ltb b a ≡ false → ltb (b - a) (0 * 1000) ≡ false
sub_nonneg a b h = ground arith

abbrev pub decimals : Floats
decimals = record {
  F = ℕ;
  of_ℕ = λ n. n * 1000;
  add = λ a b. a + b;
  sub = λ a b. a - b;
  mul = λ a b. a * b / 1000;
  div = λ a b. a * 1000 / b;
  lt = ltb;
  lt_irrefl = lt_irrefl;
  lt_asymm = lt_asymm;
  ge_trans = ge_trans;
  of_ℕ_pos = of_ℕ_pos;
  sub_nonneg = sub_nonneg;
}

-- The time, and the outcomes of the calls to come; a call takes 200 thousandths of a second.
pub record Scene : Type 0 where
  pub time : ℕ
  pub script : List (Result LlmResponse)

abbrev pub pop_outcome : List (Result LlmResponse) → Result LlmResponse
pop_outcome [] = raise builtin_timeout
pop_outcome (o ∷ rest) = o

abbrev pub rest_of : List (Result LlmResponse) → List (Result LlmResponse)
rest_of [] = []
rest_of (o ∷ rest) = rest

abbrev pub play : Scene → Result LlmResponse × Scene
play w = (pop_outcome w.script, record { time = w.time + 200; script = rest_of w.script })

pub play_clock : (w : Scene) → ltb (play w).1.time w.time ≡ false
play_clock w = ground arith

pub sleep_clock : (delay : ℕ) (w : Scene) → ltb (w.time + delay) w.time ≡ false
sleep_clock delay w = ground arith

abbrev pub scripted : World decimals
scripted = record {
  State = Scene;
  perf_counter = λ w. w.time;
  monotonic = λ w. w.time;
  wait_for = λ _ _ _ w. play w;
  sleep = λ delay w. record w { time = w.time + delay };
  wait_for_clock = λ _ _ _ w. play_clock w;
  sleep_clock = sleep_clock;
}

abbrev pub mistral : Provider
mistral = record { identity = 1; name = some "mistral"; class_name = "mistralllmprovider" }

abbrev pub groq : Provider
groq = record { identity = 2; name = some "groq"; class_name = "groqllmprovider" }

abbrev pub settings : Settings ℕ
settings = record (defaults decimals) {
  api_key = some "secret";
  rate_limit_per_minute = pos 2;
  llm_provider = "mistral,groq";
  mistral_api_key = some "m-key";
  groq_api_key = some "g-key";
}

abbrev pub request : LlmRequest ℕ
request = record { prompt = "hello"; model = none; max_tokens = pos 512; temperature = 0 }

abbrev pub answer : LlmResponse
answer = record { content = "hi"; model = "m"; input_tokens = pos 0; output_tokens = pos 0 }

abbrev pub unavailable : Result LlmResponse
unavailable = raise (llm_error LlmErrorKind.unavailable "down")

abbrev pub scene : List (Result LlmResponse) → Scene
scene script = record { time = 1000; script = script }
