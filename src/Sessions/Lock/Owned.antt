-- ===== src/Sessions/Lock/Owned.antt =====
-- Who holds a session's lock (src/modules/agents/agents.service.ts).
use nest_langgraph_ai.Prelude.{
  Text, ℕ, ◌+◌, ◌*◌, ◌≤◌, ◌<◌, ◌≡◌, ◌≢◌, refl, ap, ◌∙◌, true, false, leb, Option, some, List, [],
  ◌∷◌, ltb, text_eq, text_eq_iff, Bool-cases, if◌then◌else◌, inl, inr, arith,
}
use nest_langgraph_ai.Redis.{Redis, IsRedis}
use nest_langgraph_ai.Sessions.Lock.{
  session_lock_ttl, lock_key, acquire_session_lock, release_session_lock,
}
use nest_langgraph_ai.Sessions.Lock.Values.{release-other, acquired}

other_key :
    {A : Type 0} (k j : Text) (x y : A) {z : A} → k ≢ j → y ≡ z → (if text_eq k j then x else y) ≡ z
other_key k j x y differs e = elim (Bool-cases (text_eq k j)) [
  | inl same ↦ absurd (differs ((text_eq_iff k j).0 same))
  | inr other ↦ rw other e
]

-- What a request does to a session's lock, or to another key.
pub data LockOp : Type 0 where
  acquire : Text → LockOp
  release : Text → LockOp
  write : (key value : Text) → (ex : Option ℕ) → LockOp

module _ {S : Type 0} (redis : Redis S) (session_id : Text) where
  unfoldable pub lock_op : ℕ → LockOp → S → S
  lock_op now (acquire v) s = (acquire_session_lock redis now session_id v s).1
  lock_op now (release v) s = release_session_lock redis now session_id v s
  lock_op now (write k v ex) s = redis.set now k v ex s

  unfoldable pub lock_ops : List (ℕ × LockOp) → S → S
  unfolding lock_op
  lock_ops [] s = s
  lock_ops ((now, op) ∷ ops) s = lock_ops ops (lock_op now op s)

  -- An operation of another request: it releases its own value, and writes no lock of this session.
  abbrev pub IsForeign : Text → LockOp → Type 0
  IsForeign mine (acquire v) = Unit
  IsForeign mine (release v) = v ≢ mine
  IsForeign mine (write k v ex) = k ≢ lock_key session_id

  -- Operations of other requests, at times that do not decrease and are no later than an end.
  abbrev pub AreForeign : Text → (from end : ℕ) → List (ℕ × LockOp) → Type 0
  AreForeign mine from end [] = from ≤ end
  AreForeign mine from end ((now, op) ∷ ops) =
      (from ≤ now) × IsForeign mine op × AreForeign mine now end ops

  -- The lock has a value until a time, whatever the server is asked in between.
  abbrev pub Holds : Text → (from end : ℕ) → S → Type 0
  Holds mine from end s =
      (t : ℕ) → from ≤ t → t ≤ end → redis.get t (lock_key session_id) s ≡ some mine

  AreForeign-le :
      (mine : Text) (from end : ℕ) (ops : List (ℕ × LockOp))
      → AreForeign mine from end ops
      → from ≤ end
  AreForeign-le mine from end [] le = le
  AreForeign-le mine from end ((now, op) ∷ ops) (le, foreign, more) =
      omega (arith, AreForeign-le mine now end ops more)

  module _ (laws : IsRedis redis) where
    lock_op-Holds :
        (mine : Text) (from now end : ℕ) (op : LockOp) (s : S)
        → from ≤ now
        → now ≤ end
        → IsForeign mine op
        → Holds mine from end s
        → Holds mine now end (lock_op now op s)
    unfolding lock_op acquire_session_lock release_session_lock
    lock_op-Holds mine from now end (acquire v) s le le' f h t lt lt' =
        ap (λ r. redis.get t (lock_key session_id) r.1)
          (laws.set_nx-present now (lock_key session_id) v mine (some session_lock_ttl) s
            (h now le le'))
        ∙ h t (omega arith) lt'
    lock_op-Holds mine from now end (release v) s le le' f h t lt lt' =
        ap (redis.get t (lock_key session_id))
          (release-other redis session_id now mine v s (h now le le') f)
        ∙ h t (omega arith) lt'
    lock_op-Holds mine from now end (write k v ex) s le le' f h t lt lt' =
        laws.get-set now t k (lock_key session_id) v ex s lt
        ∙ other_key k (lock_key session_id) _ _ f (h t (omega arith) lt')

    lock_ops-Holds :
        (mine : Text) (from end : ℕ) (ops : List (ℕ × LockOp)) (s : S)
        → AreForeign mine from end ops
        → Holds mine from end s
        → redis.get end (lock_key session_id) (lock_ops ops s) ≡ some mine
    unfolding lock_ops
    lock_ops-Holds mine from end [] s le h = h end le (omega arith)
    lock_ops-Holds mine from end ((now, op) ∷ ops) s (le, foreign, more) h =
        lock_ops-Holds mine now end ops (lock_op now op s) more
          (lock_op-Holds mine from now end op s le (AreForeign-le mine now end ops more) foreign h)

    -- On a Redis that keeps the laws, a lock that was acquired keeps its value for less than 120
    -- seconds, whatever other requests do in order of time, where they do not release this value or
    -- write this key otherwise; and at the end of that time another request does not acquire it.
    pub acquire_session_lock-excludes :
        (now end : ℕ) (mine other : Text) (ops : List (ℕ × LockOp)) (s : S)
        → (acquire_session_lock redis now session_id mine s).0 ≡ true
        → AreForeign mine now end ops
        → end < now + session_lock_ttl * 1000
        → let later = lock_ops ops (acquire_session_lock redis now session_id mine s).1 in
          (redis.get end (lock_key session_id) later ≡ some mine)
          × ((acquire_session_lock redis end session_id other later).0 ≡ false)
    unfolding acquire_session_lock
    acquire_session_lock-excludes now end mine other ops s h foreign lt =
        let held =
          lock_ops-Holds mine now end ops (acquire_session_lock redis now session_id mine s).1
            foreign (λ t le le'. acquired redis session_id laws now mine s h t le ∙ ground arith) in
        (
          held,
          ap (λ r. r.0)
              (laws.set_nx-present end (lock_key session_id) other mine (some session_lock_ttl) _
                held),
        )

    second_acquires :
        (now t : ℕ) (mine other : Text) (s : S)
        → (acquire_session_lock redis now session_id mine s).0 ≡ true
        → now ≤ t
        → (acquire_session_lock redis t session_id other
            (acquire_session_lock redis now session_id mine s).1).0
          ≡ leb (now + session_lock_ttl * 1000) t
    unfolding acquire_session_lock
    second_acquires now t mine other s h le =
        let held = acquired redis session_id laws now mine s h t le in
        let key = lock_key session_id in
        let first = (acquire_session_lock redis now session_id mine s).1 in
        elim (Bool-cases (ltb t (now + session_lock_ttl * 1000))) [
          | inl e ↦
              ap (λ r. r.0)
                (laws.set_nx-present t key other mine (some session_lock_ttl) first
                  (held ∙ rw e refl))
              ∙ ground (arith, e)
          | inr e ↦
              ap (λ r. r.0)
                (laws.set_nx-absent t key other (some session_lock_ttl) first (held ∙ rw e refl))
              ∙ ground (arith, e)
        ]

    -- A second request gets a lock that was acquired and not released exactly where 120 seconds have
    -- passed, and then the first request's release leaves the second one's lock.
    pub acquire_session_lock-expires :
        (now t : ℕ) (mine other : Text) (s : S)
        → (acquire_session_lock redis now session_id mine s).0 ≡ true
        → now ≤ t
        → mine ≢ other
        → let second =
            acquire_session_lock redis t session_id other
              (acquire_session_lock redis now session_id mine s).1 in
          (second.0 ≡ leb (now + session_lock_ttl * 1000) t)
          × (second.0 ≡ true → release_session_lock redis t session_id mine second.1 ≡ second.1)
    acquire_session_lock-expires now t mine other s h le differs = (
      second_acquires now t mine other s h le,
      λ again.
          release-other redis session_id t other mine _
            (acquired redis session_id laws t other _ again t (omega arith) ∙ ground arith) differs,
    )
