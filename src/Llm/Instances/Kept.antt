-- ===== src/Llm/Instances/Kept.antt =====
-- The cache of instances against the constructor (src/modules/llm/llm.provider.ts).
use nest_langgraph_ai.Prelude.{
  Text, suc, ◌≤◌, ◌≡◌, refl, ◌∙◌, Option, some, List, [], ◌∷◌, length, leb, text_eq, text_eq_iff,
  text_eq_refl, Bool-cases, Option-cases, lookup, insert, remove, lookup-insert, lookup-remove,
  if◌then◌else◌, inl, inr, ap, arith,
}
use nest_langgraph_ai.Config.{Env}
use nest_langgraph_ai.Llm.Models.{resolve_text_model}
use nest_langgraph_ai.Llm.Instances.{
  llm_instance_cache_max, evict_oldest, instance_for, get_llm_instance,
}

module _ {V : Type 0} where
  length-insert-le :
      (k : Text) (v : V) (m : List (Text × V)) → length (insert k v m) ≤ suc (length m)
  unfolding insert
  length-insert-le k v [] = omega arith
  length-insert-le k v ((j, w) ∷ m) = ground (arith, length-insert-le k v m)

  length-remove-le : (k : Text) (m : List (Text × V)) → length (remove k m) ≤ length m
  unfolding remove
  length-remove-le k [] = omega arith
  length-remove-le k ((j, w) ∷ m) = ground (arith, length-remove-le k m)

  removed-lookup :
      (k j : Text) (m : List (Text × V)) (x : V)
      → lookup j (remove k m) ≡ some x
      → lookup j m ≡ some x
  removed-lookup k j m x h = ground (arith, lookup-remove k j m)

module _ {Instance : Type 0} (create : Text → Instance) where
  -- At most 20 entries, and every instance is the one that the constructor makes for its key.
  pub record IsInstanceCache (cache : List (Text × Instance)) : Type 0 where
    pub bounded : length cache ≤ llm_instance_cache_max
    pub created : (k : Text) (i : Instance) → lookup k cache ≡ some i → i ≡ create k

  evict_oldest-length :
      (m : List (Text × Instance))
      → length m ≤ llm_instance_cache_max
      → suc (length (evict_oldest create m)) ≤ llm_instance_cache_max
  unfolding evict_oldest remove
  evict_oldest-length [] h = omega arith
  evict_oldest-length ((k, i) ∷ m) h = ground (arith, length-remove-le k m, text_eq_refl k)

  evict_oldest-created :
      (m : List (Text × Instance)) (j : Text) (x : Instance)
      → lookup j (evict_oldest create m) ≡ some x
      → lookup j m ≡ some x
  unfolding evict_oldest
  evict_oldest-created [] j x h = h
  evict_oldest-created ((k, i) ∷ m) j x h =
      elim (Bool-cases (leb llm_instance_cache_max (length ((k, i) ∷ m)))) [
        | inl full ↦ removed-lookup k j ((k, i) ∷ m) x (ground arith)
        | inr room ↦ ground arith
      ]

  inserted-created :
      (key k : Text) (i : Instance) (cache : List (Text × Instance))
      → IsInstanceCache cache
      → lookup k (insert key (create key) (evict_oldest create cache)) ≡ some i
      → i ≡ create k
  inserted-created key k i cache h f = elim (Bool-cases (text_eq key k)) [
    | inl same ↦
        ground
          (arith, text_eq_iff key k, lookup-insert key k (create key) (evict_oldest create cache))
    | inr other ↦ h.created k i (
        evict_oldest-created cache k i
          (ground (arith, lookup-insert key k (create key) (evict_oldest create cache))))
  ]

  instance_for-created :
      (key : Text) (cache : List (Text × Instance))
      → IsInstanceCache cache
      → (((instance_for create key cache).0 ≡ create key)
          × IsInstanceCache (instance_for create key cache).1)
        × (lookup key (instance_for create key cache).1 ≡ some (create key))
  unfolding instance_for
  instance_for-created key cache h = elim (Option-cases (lookup key cache)) [
    | inr (i, e) ↦ rw (e, instance_for) ((h.created key i e, h), e ∙ ap some (h.created key i e))
    | inl e ↦
        rw (e, instance_for)
          (
            (
              refl,
              record {
                bounded = omega (
                  arith,
                  length-insert-le key (create key) (evict_oldest create cache),
                  evict_oldest-length cache h.bounded,
                );
                created = λ k i f. inserted-created key k i cache h f;
              },
            ),
            lookup-insert key key (create key) (evict_oldest create cache)
                ∙ ap (λ b. if b then some (create key) else lookup key (evict_oldest create cache))
                    (text_eq_refl key),
          )
  ]

  -- On a cache of at most 20 instances, each made for its key, the instance that a model gets is the
  -- one that the constructor makes for it; the cache stays such a cache and holds that instance.
  pub get_llm_instance-create :
      (env : Env) (model : Option Text) (cache : List (Text × Instance))
      → IsInstanceCache cache
      → (((get_llm_instance create env model cache).0 ≡ create (resolve_text_model env model))
          × IsInstanceCache (get_llm_instance create env model cache).1)
        × (lookup (resolve_text_model env model) (get_llm_instance create env model cache).1
            ≡ some (create (resolve_text_model env model)))
  unfolding get_llm_instance
  get_llm_instance-create env model cache h =
      instance_for-created (resolve_text_model env model) cache h
