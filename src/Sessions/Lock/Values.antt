-- ===== src/Sessions/Lock/Values.antt =====
-- The value of a session's lock when it is acquired and released (src/modules/agents/agents.service.ts).
use nest_langgraph_ai.Prelude.{
  Text, ℕ, ◌+◌, ◌*◌, ◌≤◌, ◌≡◌, ◌≢◌, refl, sym, ap, ◌∙◌, true, false, some, ltb, text_eq,
  text_eq_iff, text_eq_refl, Bool-cases, Option-cases, inl, inr, arith,
}
use nest_langgraph_ai.Redis.{Redis, IsRedis, if_alive}
use nest_langgraph_ai.Sessions.Lock.{
  session_lock_ttl, lock_key, acquire_session_lock, release_session_lock,
}

module _ {S : Type 0} (redis : Redis S) (session_id : Text) where
  pub release-other :
      (now : ℕ) (mine v : Text) (s : S)
      → redis.get now (lock_key session_id) s ≡ some mine
      → v ≢ mine
      → release_session_lock redis now session_id v s ≡ s
  unfolding release_session_lock
  release-other now mine v s e differs = elim (Bool-cases (text_eq mine v)) [
    | inl same ↦ absurd (differs (sym ((text_eq_iff mine v).0 same)))
    | inr other ↦ rw (e, release_session_lock, other) refl
  ]

  module _ (laws : IsRedis redis) where
    -- A request that releases its lock does not hold it any more.
    pub release_session_lock-frees :
        (now t : ℕ) (mine : Text) (s : S)
        → now ≤ t
        → redis.get t (lock_key session_id) (release_session_lock redis now session_id mine s)
          ≢ some mine
    unfolding release_session_lock
    release_session_lock-frees now t mine s le h =
        elim (Option-cases (redis.get now (lock_key session_id) s)) [
          | inl e ↦
              let kept : redis.get t (lock_key session_id) s ≡ some mine =
                ap (redis.get t (lock_key session_id)) (sym (rw (e, release_session_lock) refl))
                ∙ h in
              ground (arith, laws.get-earlier now t (lock_key session_id) mine s le kept, e)
          | inr (v, e) ↦ elim (Bool-cases (text_eq v mine)) [
            | inl same ↦
                let gone : release_session_lock redis now session_id mine s
                    ≡ redis.del now (lock_key session_id) s =
                  rw (e, release_session_lock, same) refl in
                let key = lock_key session_id in
                ground (
                  arith,
                  ap (redis.get t key) (sym gone) ∙ h,
                  laws.get-del now t key key s le,
                  text_eq_refl key,
                )
            | inr differs ↦
                let kept : redis.get t (lock_key session_id) s ≡ some mine =
                  ap (redis.get t (lock_key session_id))
                    (sym (rw (e, release_session_lock, differs) refl))
                  ∙ h in
                ground (
                  arith,
                  laws.get-earlier now t (lock_key session_id) mine s le kept,
                  e,
                  text_eq_iff v mine,
                )
          ]
        ]

    -- A lock that is not acquired leaves the server as it was.
    pub acquire_session_lock-refused :
        (now : ℕ) (mine : Text) (s : S)
        → (acquire_session_lock redis now session_id mine s).0 ≡ false
        → (acquire_session_lock redis now session_id mine s).1 ≡ s
    unfolding acquire_session_lock
    acquire_session_lock-refused now mine s h =
        let key = lock_key session_id in
        elim (Option-cases (redis.get now key s)) [
          | inl e ↦
              absurd
                (ground (arith, laws.set_nx-absent now key mine (some session_lock_ttl) s e, h))
          | inr (v, e) ↦
              ap (λ r. r.1) (laws.set_nx-present now key mine v (some session_lock_ttl) s e)
        ]

    -- A lock that was acquired has its value for 120 seconds.
    pub acquired :
        (now : ℕ) (mine : Text) (s : S)
        → (acquire_session_lock redis now session_id mine s).0 ≡ true
        → (t : ℕ) → now ≤ t
        → redis.get t (lock_key session_id) (acquire_session_lock redis now session_id mine s).1
          ≡ if_alive (ltb t (now + session_lock_ttl * 1000)) mine
    unfolding acquire_session_lock
    acquired now mine s h t le = elim (Option-cases (redis.get now (lock_key session_id) s)) [
      | inr (v, e) ↦ absurd (
          ground (
            arith,
            laws.set_nx-present now (lock_key session_id) mine v (some session_lock_ttl) s e,
            h,
          ))
      | inl e ↦
          ap (λ r. redis.get t (lock_key session_id) r.1)
            (laws.set_nx-absent now (lock_key session_id) mine (some session_lock_ttl) s e)
          ∙ (laws.get-set now t (lock_key session_id) (lock_key session_id) mine
                (some session_lock_ttl) s le
              ∙ rw (text_eq_refl (lock_key session_id)) refl)
    ]
