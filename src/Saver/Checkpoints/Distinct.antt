-- ===== src/Saver/Checkpoints/Distinct.antt =====
-- The keys of a thread differ from each other and from a record's
-- (src/modules/agents/utils/redis-saver.ts).
use nest_langgraph_ai.Prelude.{
  Text, ◌≡◌, ◌≢◌, refl, sym, ap, ◌∙◌, false, [], ◌∷◌, ◌++◌, codes, append_nil, text_eq, text_eq_iff,
  arith,
}
use nest_langgraph_ai.Saver.Keys.{
  encode_namespace, legacy_thread_key, thread_namespaces_key, thread_latest_key, thread_history_key,
  legacy_checkpoint_set_key, checkpoint_record_key,
}

text_eq-append : (p s t : Text) → text_eq (p ++ s) (p ++ t) ≡ text_eq s t
unfolding text_eq
text_eq-append [] s t = refl
text_eq-append (c ∷ p) s t = ground (arith, text_eq-append p s t)

differ : (s t : Text) → text_eq s t ≡ false → s ≢ t
differ s t h e = ground (arith, text_eq_iff s t)

pub latest-history :
    (encode : Text → Text) (t n : Text)
    → thread_history_key encode t n ≢ thread_latest_key encode t n
unfolding thread_history_key thread_latest_key codes text_eq
latest-history encode t n = differ (thread_history_key encode t n) (thread_latest_key encode t n) (
    text_eq-append t (codes ":ns:" ++ (encode_namespace encode n ++ codes ":history"))
      (codes ":ns:" ++ (encode_namespace encode n ++ codes ":latest"))
    ∙ text_eq-append (encode_namespace encode n) (codes ":history") (codes ":latest"))

pub latest-namespaces :
    (encode : Text → Text) (t n : Text) → thread_namespaces_key t ≢ thread_latest_key encode t n
unfolding thread_namespaces_key thread_latest_key codes text_eq
latest-namespaces encode t n = differ (thread_namespaces_key t) (thread_latest_key encode t n) (
    text_eq-append t (codes ":namespaces")
      (codes ":ns:" ++ (encode_namespace encode n ++ codes ":latest")))

pub latest-legacy :
    (encode : Text → Text) (t n : Text) → legacy_thread_key t ≢ thread_latest_key encode t n
unfolding legacy_thread_key thread_latest_key codes text_eq
latest-legacy encode t n = differ (legacy_thread_key t) (thread_latest_key encode t n) (
    ap (λ u. text_eq u (t ++ (codes ":ns:" ++ (encode_namespace encode n ++ codes ":latest"))))
      (sym (append_nil t))
    ∙ text_eq-append t [] (codes ":ns:" ++ (encode_namespace encode n ++ codes ":latest")))

pub latest-legacy_set :
    (encode : Text → Text) (t n : Text) → legacy_checkpoint_set_key t ≢ thread_latest_key encode t n
unfolding legacy_checkpoint_set_key thread_latest_key codes text_eq
latest-legacy_set encode t n = differ (legacy_checkpoint_set_key t) (thread_latest_key encode t n) (
    text_eq-append t (codes ":checkpoints")
      (codes ":ns:" ++ (encode_namespace encode n ++ codes ":latest")))

-- A key of a thread is not the key of a record.
pub thread-record : (rest id : Text) → codes "agent:thread:" ++ rest ≢ checkpoint_record_key id
unfolding checkpoint_record_key codes text_eq
thread-record rest id = differ (codes "agent:thread:" ++ rest) (checkpoint_record_key id) refl
