-- ===== src/Saver/Writes/Forgotten.antt =====
-- A thread that is deleted is not found any more (src/modules/agents/utils/redis-saver.ts).
use nest_langgraph_ai.Prelude.{
  Text, ℕ, ◌≤◌, ◌≡◌, refl, subst, ap, ◌∙◌, inl, inr, Bool, true, Option, none, some, List, [], ◌∷◌,
  ◌++◌, map, text_eq, text_eq_iff, text_eq_refl, some_of, is_empty, List-cases, Bool-cases,
  returned, if◌then◌else◌, arith,
}
use nest_langgraph_ai.Config.{Env}
use nest_langgraph_ai.Redis.{IsRedis, ArePipelines, del_key, exec_all}
use nest_langgraph_ai.Saver.Keys.{
  thread_latest_key, legacy_thread_key, thread_memory_key, checkpoint_record_key, checkpoint_key,
}
use nest_langgraph_ai.Saver.Threads.{get_thread_memory}
use nest_langgraph_ai.Saver.Checkpoints.{
  Backing, wanted_id, load_legacy, load_record, tuple_of, get_tuple,
}
use nest_langgraph_ai.Saver.Writes.{
  tracked_namespaces, thread_ids, namespace_keys, deleted_keys, checkpoint_keys, delete_thread,
}

-- Whether a key is in a list.
abbrev pub lists : Text → List Text → Bool
lists j keys = some_of (λ k. text_eq k j) keys

lists-append : (j : Text) (xs ys : List Text) → lists j xs ≡ true → lists j (xs ++ ys) ≡ true
lists-append j [] ys h = ground arith
lists-append j (x ∷ xs) ys h = ground (arith, lists-append j xs ys)

lists-behind : (j : Text) (xs ys : List Text) → lists j ys ≡ true → lists j (xs ++ ys) ≡ true
lists-behind j [] ys h = h
lists-behind j (x ∷ xs) ys h = ground (arith, lists-behind j xs ys h)

lists-none : (j : Text) (xs : List Text) → xs ≡ [] → ¬ (lists j xs ≡ true)
lists-none j xs e = rw e (λ h. ground arith)

module _ {S : Type 0} (b : Backing S) (redis_laws : IsRedis b.redis)
    (pipeline_laws : ArePipelines b.redis b.pipelines) where
  get-del_key :
      (now t : ℕ) (k j : Text) (s : S)
      → now ≤ t
      → b.redis.get t j (b.pipelines.exec now (del_key k) s)
        ≡ (if text_eq k j then none else b.redis.get t j s)
  get-del_key now t k j s le =
      ap (b.redis.get t j) (pipeline_laws.exec-del now k s) ∙ redis_laws.get-del now t k j s le

  absent-stays :
      (now t : ℕ) (keys : List Text) (j : Text) (s : S)
      → now ≤ t
      → b.redis.get t j s ≡ none
      → b.redis.get t j (exec_all b.pipelines now (map del_key keys) s) ≡ none
  unfolding exec_all
  absent-stays now t [] j s le h = h
  absent-stays now t (k ∷ keys) j s le h =
      absent-stays now t keys j (b.pipelines.exec now (del_key k) s) le
        (ground (arith, get-del_key now t k j s le))

  -- A key that is deleted has no value.
  deleted-absent :
      (now t : ℕ) (keys : List Text) (j : Text) (s : S)
      → now ≤ t
      → lists j keys ≡ true
      → b.redis.get t j (exec_all b.pipelines now (map del_key keys) s) ≡ none
  unfolding exec_all
  deleted-absent now t [] j s le h = ground arith
  deleted-absent now t (k ∷ keys) j s le h = elim (Bool-cases (text_eq k j)) [
    | inl e ↦
        absent-stays now t keys j (b.pipelines.exec now (del_key k) s) le
          (ground (arith, get-del_key now t k j s le))
    | inr e ↦ deleted-absent now t keys j (b.pipelines.exec now (del_key k) s) le (ground arith)
  ]

  namespace_keys-latest :
      (env : Env) (thread n : Text) (namespaces : List Text)
      → lists n namespaces ≡ true
      → lists (thread_latest_key b.encode thread n) (namespace_keys b env thread namespaces) ≡ true
  unfolding namespace_keys
  namespace_keys-latest env thread n [] h = ground arith
  namespace_keys-latest env thread n (m ∷ more) h = elim (Bool-cases (text_eq m n)) [
    | inl e ↦
        rw ((text_eq_iff m n).0 e) (rw (text_eq_refl (thread_latest_key b.encode thread n)) refl)
    | inr e ↦
        let later = namespace_keys-latest env thread n more (ground arith) in ground (arith, later)
  ]

  checkpoint_keys-all :
      (env : Env) (id : Text) (ids : List Text)
      → lists id ids ≡ true
      → (lists (checkpoint_record_key id) (checkpoint_keys b env ids) ≡ true)
        × (lists (checkpoint_key id) (checkpoint_keys b env ids) ≡ true)
  unfolding checkpoint_keys
  checkpoint_keys-all env id [] h = ground arith
  checkpoint_keys-all env id (i ∷ more) h = elim (Bool-cases (text_eq i id)) [
    | inl e ↦ rw ((text_eq_iff i id).0 e) (
      rw (text_eq_refl (checkpoint_record_key id)) refl,
      ground (arith, text_eq_refl (checkpoint_key id)),
    )
    | inr e ↦
        let (stored, legacy) = checkpoint_keys-all env id more (ground arith) in
        (ground (arith, stored), ground (arith, legacy))
  ]

  -- The keys that a lookup in the thread reads first are deleted.
  record AreDeleted (env : Env) (thread n id : Text) (keys : List Text) : Type 0 where
    latest : lists (thread_latest_key b.encode thread n) keys ≡ true
    legacy : lists (legacy_thread_key thread) keys ≡ true
    memory : lists (thread_memory_key thread) keys ≡ true
    stored : lists (checkpoint_record_key id) keys ≡ true
    old : lists (checkpoint_key id) keys ≡ true

  keys_of_thread :
      (env : Env) (thread n id : Text) (namespaces ids : List Text)
      → lists n namespaces ≡ true
      → lists id ids ≡ true
      → AreDeleted env thread n id (deleted_keys b env thread namespaces ids)
  unfolding deleted_keys
  keys_of_thread env thread n id namespaces ids h k =
      let (stored, old) = checkpoint_keys-all env id ids k in
      record {
        latest = lists-behind _ (checkpoint_keys b env ids) _ (
            lists-append _ (namespace_keys b env thread namespaces) _
              (namespace_keys-latest env thread n namespaces h));
        legacy = lists-behind _ (checkpoint_keys b env ids) _ (
            lists-behind _ (namespace_keys b env thread namespaces) _
              (ground (arith, text_eq_refl (legacy_thread_key thread))));
        memory = lists-behind _ (checkpoint_keys b env ids) _ (
            lists-behind _ (namespace_keys b env thread namespaces) _
              (ground (arith, text_eq_refl (thread_memory_key thread))));
        stored = lists-append _ (checkpoint_keys b env ids) _ stored;
        old = lists-append _ (checkpoint_keys b env ids) _ old;
      }

  nothing_latest :
      (env : Env) (t c : ℕ) (rest n : Text) (s : S)
      → b.redis.get t (thread_latest_key b.encode (c ∷ rest) n) s ≡ none
      → b.redis.get t (legacy_thread_key (c ∷ rest)) s ≡ none
      → get_tuple b env t
          (record { thread_id = some (c ∷ rest); checkpoint_id = none; checkpoint_ns = some n })
          s
        ≡ returned none
  unfolding get_tuple wanted_id
  nothing_latest env t c rest n s e f = elim (Bool-cases (is_empty n)) [
    | inl d ↦ rw (e, get_tuple, wanted_id, d, f) refl
    | inr d ↦ rw (e, get_tuple, wanted_id, d) refl
  ]

  nothing_named :
      (env : Env) (t c d : ℕ) (rest more : Text) (ns : Option Text) (s : S)
      → b.redis.get t (checkpoint_record_key (d ∷ more)) s ≡ none
      → b.redis.get t (checkpoint_key (d ∷ more)) s ≡ none
      → get_tuple b env t
          (record {
            thread_id = some (c ∷ rest);
            checkpoint_id = some (d ∷ more);
            checkpoint_ns = ns;
          })
          s
        ≡ returned none
  unfolding get_tuple wanted_id tuple_of load_record load_legacy
  nothing_named env t c d rest more ns s e f =
      rw (e, get_tuple, tuple_of, load_record, f, load_legacy) refl

  -- After the deletion of a thread, from then on: in each namespace that it had, the default one
  -- included, no checkpoint is found as the latest one; none of the checkpoints that its namespaces and
  -- its old layout named is found by its id, in any namespace; and the thread has no memory.
  pub delete_thread-forgets :
      (env : Env) (now t c d : ℕ) (rest n more : Text) (ns : Option Text) (s : S)
      → now ≤ t
      → lists n (tracked_namespaces b env now (c ∷ rest) s) ≡ true
      → lists (d ∷ more) (thread_ids b env now (c ∷ rest) s) ≡ true
      → let (o, after) = delete_thread b env now (c ∷ rest) s in
        (o ≡ returned tt)
        × (get_tuple b env t
              (record { thread_id = some (c ∷ rest); checkpoint_id = none; checkpoint_ns = some n })
              after
            ≡ returned none)
        × (get_tuple b env t
              (record {
                thread_id = some (c ∷ rest);
                checkpoint_id = some (d ∷ more);
                checkpoint_ns = ns;
              })
              after
            ≡ returned none)
        × (get_thread_memory b.redis t (c ∷ rest) after ≡ none)
  unfolding delete_thread get_thread_memory
  delete_thread-forgets env now t c d rest n more ns s le tracks named =
      elim (List-cases (thread_ids b env now (c ∷ rest) s)) [
        | inl e ↦ absurd (lists-none (d ∷ more) _ e named)
        | inr (id, ids, e) ↦
            let namespaces = tracked_namespaces b env now (c ∷ rest) s in
            let keys = deleted_keys b env (c ∷ rest) namespaces (id ∷ ids) in
            let after = exec_all b.pipelines now (map del_key keys) s in
            let gone =
              keys_of_thread env (c ∷ rest) n (d ∷ more) namespaces (id ∷ ids) tracks
                (subst (λ l. lists (d ∷ more) l ≡ true) e named) in
            rw (e, delete_thread)
              (
                refl,
                nothing_latest env t c rest n after
                    (deleted-absent now t keys (thread_latest_key b.encode (c ∷ rest) n) s le
                      gone.latest)
                    (deleted-absent now t keys (legacy_thread_key (c ∷ rest)) s le gone.legacy),
                nothing_named env t c d rest more ns after
                    (deleted-absent now t keys (checkpoint_record_key (d ∷ more)) s le gone.stored)
                    (deleted-absent now t keys (checkpoint_key (d ∷ more)) s le gone.old),
                deleted-absent now t keys (thread_memory_key (c ∷ rest)) s le gone.memory,
              )
      ]
