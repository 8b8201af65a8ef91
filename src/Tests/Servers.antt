-- ===== src/Tests/Servers.antt =====
-- A concrete Redis in memory, which answers every call.
use nexus_ai_platform.Prelude.{
  ℕ, suc, ◌+◌, ◌<◌, ◌≤◌, String, true, Option, none, some, List, [], ◌∷◌, ◌++◌, ◌≡◌, refl, ◌⊎◌, inl,
  inr, arith, ltb, str_eq, if◌then◌else◌, Bool-cases, last_items,
}
use nexus_ai_platform.Prelude.Int.{ℤ, pos, negsuc}
use nexus_ai_platform.Cache.Redis.{Redis, answered}

pub record Server : Type 0 where
  pub now : ℕ
  pub texts : String → Option String
  pub numbers : String → ℕ
  pub lists : String → List String
  pub deadlines : String → ℕ

abbrev pub expiry : ℕ → Option ℤ → ℕ
expiry now (some (pos n)) = now + n
expiry now _ = 0

abbrev pub put : String → String → Option ℤ → Server → Server
put key value ex s = record s {
  texts = λ j. if str_eq j key then some value else s.texts j;
  deadlines = λ j. if str_eq j key then expiry s.now ex else s.deadlines j;
}

abbrev pub remove : String → Server → ℕ × Server
remove key s = (
  1,
  record s {
    texts = λ j. if str_eq j key then none else s.texts j;
    lists = λ j. if str_eq j key then [] else s.lists j;
    numbers = λ j. if str_eq j key then 0 else s.numbers j;
  },
)

abbrev pub one_more : String → Server → ℕ × Server
one_more key s = (
  suc (s.numbers key),
  record s { numbers = λ j. if str_eq j key then suc (s.numbers j) else s.numbers j },
)

abbrev pub until : String → ℕ → Server → Server
until key n s = record s { deadlines = λ j. if str_eq j key then s.now + n else s.deadlines j }

abbrev pub push : String → String → Server → Server
push key value s = record s {
  lists = λ j. if str_eq j key then s.lists j ++ value ∷ [] else s.lists j;
}

-- From `-(m + 1)` to the end; no other range is asked for.
abbrev pub cut : ℤ → List String → List String
cut (negsuc m) xs = last_items (suc m) xs
cut (pos _) xs = xs

abbrev pub trim : String → ℤ → ℤ → Server → Server
trim key start stop s = record s {
  lists = λ j. if str_eq j key then cut start (s.lists j) else s.lists j;
}

abbrev pub present : Option String → ℕ
present none = 0
present (some _) = 1

abbrev pub left : Option String → ℕ → ℤ
left none n = negsuc 1
left (some _) n = pos n

abbrev pub grow_old : ℕ → Server → Server
grow_old d s = record s {
  now = s.now + d;
  texts = λ j. if ltb (s.now + d) (s.deadlines j) then s.texts j else none;
  numbers = λ j. if ltb (s.now + d) (s.deadlines j) then s.numbers j else 0;
  lists = λ j. if ltb (s.now + d) (s.deadlines j) then s.lists j else [];
}

early : (a b : ℕ) → a < b → ltb a b ≡ true
early a b h = ground arith

pub gone : (o : Option String) (n : ℕ) → present o ≡ 0 → left o n ≡ negsuc 1
gone none n h = refl
gone (some _) n h = absurd (omega arith)

pub keeps_young :
    (d : ℕ) (s : Server) (j : String)
    → s.now + d < s.deadlines j
    → ((grow_old d s).texts j ≡ s.texts j)
      × ((grow_old d s).numbers j ≡ s.numbers j)
      × ((grow_old d s).lists j ≡ s.lists j)
      × ((grow_old d s).deadlines j ≡ s.deadlines j)
keeps_young d s j h = rw (early (s.now + d) (s.deadlines j) h) (refl, refl, refl, refl)

pub text_or_none :
    (d : ℕ) (s : Server) (j : String)
    → ((grow_old d s).texts j ≡ s.texts j) ⊎ ((grow_old d s).texts j ≡ none)
text_or_none d s j = elim (Bool-cases (ltb (s.now + d) (s.deadlines j))) [
  | inl young ↦ inl (rw young)
  | inr old ↦ inr (rw old)
]

pub no_number_made : (d : ℕ) (s : Server) (j : String) → (grow_old d s).numbers j ≤ s.numbers j
no_number_made d s j = ground arith

abbrev pub server : Redis
server = record {
  State = Server;
  clock = λ s. s.now;
  text = λ s. s.texts;
  number = λ s. s.numbers;
  items = λ s. s.lists;
  deadline = λ s. s.deadlines;
  fate = λ command s. answered;
  wait = grow_old;
  get = λ key s. s.texts key;
  ttl = λ key s. left (s.texts key) (s.deadlines key);
  exists = λ key s. present (s.texts key);
  get_text = λ key s. refl;
  ttl_missing = λ key s h. gone (s.texts key) (s.deadlines key) h;
  set = put;
  set_text = λ key value ex s j. refl;
  set_deadline = λ key value n s j. refl;
  set_clock = λ key value ex s. refl;
  delete = remove;
  delete_text = λ key s j. refl;
  delete_items = λ key s j. refl;
  incr = one_more;
  incr_returns = λ key s. refl;
  incr_number = λ key s j. refl;
  incr_deadline = λ key s j h. refl;
  incr_clock = λ key s. refl;
  expire = until;
  expire_number = λ key n s j. refl;
  expire_items = λ key n s j. refl;
  expire_deadline = λ key n s j. refl;
  expire_clock = λ key n s. refl;
  rpush = push;
  ltrim = trim;
  lrange = λ key start stop s. cut start (s.lists key);
  rpush_items = λ key value s j. refl;
  rpush_clock = λ key value s. refl;
  ltrim_items = λ key m s j. refl;
  ltrim_clock = λ key start stop s. refl;
  lrange_items = λ key m s. refl;
  wait_clock = λ d s. refl;
  wait_keeps = keeps_young;
  wait_text = text_or_none;
  wait_number = no_number_made;
  wait_deadline = λ d s j h. refl;
}

abbrev pub empty_server : ℕ → Server
empty_server t = record {
  now = t;
  texts = λ j. none;
  numbers = λ j. 0;
  lists = λ j. [];
  deadlines = λ j. 0;
}
