-- ===== src/Redis.antt =====
-- What the program uses of Redis for texts: `GET`, `SET` with and without `EX` and `NX`, and `DEL`.
-- The server is external: its commands are a parameter, and its documented behaviour the laws.
use nest_langgraph_ai.Prelude.{
  Text, ℕ, ◌+◌, ◌*◌, ◌≤◌, ◌≡◌, ◌≢◌, List, [], ◌∷◌, Bool, true, false, Option, none, some, ltb,
  text_eq, if◌then◌else◌,
}

-- The commands on a server's state; the first number is the time in milliseconds, and a time to live
-- is in seconds.
pub record Redis (S : Type 0) : Type 0 where
  pub get : ℕ → Text → S → Option Text
  pub set : ℕ → (key value : Text) → (ex : Option ℕ) → S → S
  pub set_nx : ℕ → (key value : Text) → (ex : Option ℕ) → S → Bool × S
  pub del : ℕ → Text → S → S

-- Whether a value that was set at a time is still there.
abbrev pub is_alive : (now : ℕ) → (ex : Option ℕ) → (t : ℕ) → Bool
is_alive now none t = true
is_alive now (some seconds) t = ltb t (now + seconds * 1000)

abbrev pub if_alive : Bool → Text → Option Text
if_alive true v = some v
if_alive false v = none

pub record IsRedis {S : Type 0} (r : Redis S) : Type 0 where
  pub get-set :
      (now t : ℕ) (k j v : Text) (ex : Option ℕ) (s : S)
      → now ≤ t
      → r.get t j (r.set now k v ex s)
        ≡ (if text_eq k j then if_alive (is_alive now ex t) v else r.get t j s)
  pub get-earlier :
      (now t : ℕ) (k v : Text) (s : S) → now ≤ t → r.get t k s ≡ some v → r.get now k s ≡ some v
  pub get-del :
      (now t : ℕ) (k j : Text) (s : S)
      → now ≤ t
      → r.get t j (r.del now k s) ≡ (if text_eq k j then none else r.get t j s)
  pub set_nx-absent :
      (now : ℕ) (k v : Text) (ex : Option ℕ) (s : S)
      → r.get now k s ≡ none
      → r.set_nx now k v ex s ≡ (true, r.set now k v ex s)
  pub set_nx-present :
      (now : ℕ) (k v w : Text) (ex : Option ℕ) (s : S)
      → r.get now k s ≡ some w
      → r.set_nx now k v ex s ≡ (false, s)

-- The commands of a pipeline; a range of ranks is by its two ends, of which the second counts from
-- the end.
pub data Command : Type 0 where
  set_text : (key value : Text) → (ex : Option ℕ) → Command
  zadd : (key : Text) → (score : ℕ) → (member : Text) → Command
  sadd : (key member : Text) → Command
  expire : (key : Text) → (seconds : ℕ) → Command
  zremrangebyrank : (key : Text) → (first last_from_end : ℕ) → Command
  del_key : (key : Text) → Command
  hset : (key field value : Text) → (only_new : Bool) → Command

abbrev pub command_key : Command → Text
command_key (set_text key value ex) = key
command_key (zadd key score member) = key
command_key (sadd key member) = key
command_key (expire key seconds) = key
command_key (zremrangebyrank key first last_from_end) = key
command_key (del_key key) = key
command_key (hset key field value only_new) = key

-- A pipeline's commands one by one, and what the program reads beside texts: the fields of a hash, the
-- members of a set and all members of a sorted set.
pub record Pipelines (S : Type 0) : Type 0 where
  pub exec : ℕ → Command → S → S
  pub hgetall : ℕ → Text → S → List (Text × Text)
  pub smembers : ℕ → Text → S → List Text
  pub zrange_all : ℕ → Text → S → List Text

pub record ArePipelines {S : Type 0} (r : Redis S) (p : Pipelines S) : Type 0 where
  pub exec-set :
      (now : ℕ) (key value : Text) (ex : Option ℕ) (s : S)
      → p.exec now (set_text key value ex) s ≡ r.set now key value ex s
  pub exec-del : (now : ℕ) (key : Text) (s : S) → p.exec now (del_key key) s ≡ r.del now key s
  pub exec-other :
      (now t : ℕ) (c : Command) (j : Text) (s : S)
      → now ≤ t
      → command_key c ≢ j
      → r.get t j (p.exec now c s) ≡ r.get t j s

module _ {S : Type 0} (p : Pipelines S) where
  -- `pipeline.exec()`.
  unfoldable pub exec_all : ℕ → List Command → S → S
  exec_all now [] s = s
  exec_all now (c ∷ cs) s = exec_all now cs (p.exec now c s)
