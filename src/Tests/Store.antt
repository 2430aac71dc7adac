-- ===== src/Tests/Store.antt =====
-- A small Redis that keeps the laws, for the tests.
use nest_langgraph_ai.Prelude.{
  Text, ℕ, ◌+◌, ◌*◌, ◌≤◌, ◌≡◌, refl, ap, ◌∙◌, Bool, true, false, Option, none, some, List, ltb,
  text_eq, lookup, insert, remove, lookup-insert, lookup-remove, Bool-cases, inl, inr, arith,
}
use nest_langgraph_ai.Redis.{Redis, IsRedis, is_alive, if_alive}

-- Values with the times at which they expire.
abbrev pub Entries : Type 0
Entries = List (Text × (Text × Option ℕ))

abbrev deadline : ℕ → Option ℕ → Option ℕ
deadline now none = none
deadline now (some seconds) = some (now + seconds * 1000)

abbrev alive_at : ℕ → Option (Text × Option ℕ) → Option Text
alive_at t none = none
alive_at t (some (v, none)) = some v
alive_at t (some (v, some d)) = if_alive (ltb t d) v

abbrev set_nx_on : ℕ → Text → Text → Option ℕ → Entries → Option Text → Bool × Entries
set_nx_on now k v ex s none = (true, insert k (v, deadline now ex) s)
set_nx_on now k v ex s (some w) = (false, s)

abbrev pub small_redis : Redis Entries
small_redis = record {
  get = λ now k s. alive_at now (lookup k s);
  set = λ now k v ex s. insert k (v, deadline now ex) s;
  set_nx = λ now k v ex s. set_nx_on now k v ex s (alive_at now (lookup k s));
  del = λ now k s. remove k s;
}

alive_at-earlier :
    (now t : ℕ) (o : Option (Text × Option ℕ)) (v : Text)
    → now ≤ t
    → alive_at t o ≡ some v
    → alive_at now o ≡ some v
alive_at-earlier now t none v le h = h
alive_at-earlier now t (some (w, none)) v le h = h
alive_at-earlier now t (some (w, some d)) v le h = ground arith

alive_at-deadline :
    (now t : ℕ) (v : Text) (ex : Option ℕ)
    → alive_at t (some (v, deadline now ex)) ≡ if_alive (is_alive now ex t) v
alive_at-deadline now t v none = refl
alive_at-deadline now t v (some seconds) = refl

pub small_redis-IsRedis : IsRedis small_redis
small_redis-IsRedis = record {
  get-set = λ now t k j v ex s le.
      ap (alive_at t) (lookup-insert k j (v, deadline now ex) s) ∙ elim (Bool-cases (text_eq k j)) [
        | inl e ↦ rw e (alive_at-deadline now t v ex)
        | inr e ↦ rw e refl
      ];
  get-earlier = λ now t k v s le h. alive_at-earlier now t (lookup k s) v le h;
  get-del = λ now t k j s le.
      ap (alive_at t) (lookup-remove k j s)
      ∙ elim (Bool-cases (text_eq k j)) [ inl e ↦ rw e refl | inr e ↦ rw e refl ];
  set_nx-absent = λ now k v ex s h. ap (set_nx_on now k v ex s) h;
  set_nx-present = λ now k v w ex s h. ap (set_nx_on now k v ex s) h;
}
