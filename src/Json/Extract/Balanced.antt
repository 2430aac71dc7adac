-- ===== src/Json/Extract/Balanced.antt =====
-- What `extractBalancedJson` of src/common/utils/json.util.ts returns.
use nest_langgraph_ai.Prelude.{
  Text, ℕ, ◌≡◌, refl, sym, ap, ◌∙◌, ◌↔◌, inl, inr, false, some, [], ◌∷◌, ◌++◌, All, ◌==◌, ==_iff,
  Bool-cases, arith,
}
use nest_langgraph_ai.Json.Extract.{
  Scan, scan_char, is_closing, balanced_from, extract_balanced_json,
}
use nest_langgraph_ai.Json.Extract.Grammar.{
  Balanced, scan_at, behind, append-append, balanced_from-Balanced, balanced_from-opening,
}
use nest_langgraph_ai.Json.Extract.Scanned.{Closes, balanced_from-Closes, scanned-next}

-- A part of a text: what begins with the first `{` of the text and ends with the `}` that is its
-- partner.
pub record IsFirstObject (part text : Text) : Type 0 where
  pub before : Text
  pub body : Text
  pub after : Text
  pub joined : text ≡ before ++ (part ++ after)
  pub no_brace : All (λ c. (c == b'{') ≡ false) before
  pub braced : part ≡ b'{' ∷ (body ++ (b'}' ∷ []))
  pub balanced : Balanced body

-- The scanner returns a beginning of the text.
balanced_from-prefix :
    (s : Scan) (t r : Text) → balanced_from s t ≡ some r → (after : Text) × (t ≡ r ++ after)
unfolding balanced_from
balanced_from-prefix s [] r h = absurd (cc)
balanced_from-prefix s (c ∷ t) r h = elim (Bool-cases (is_closing s c)) [
  | inl e ↦ let same : r ≡ c ∷ [] = ground arith in rw same (t, refl)
  | inr e ↦
      let (q, same, found) = scanned-next s c t r e h in
      let (after, joined) = balanced_from-prefix (scan_char s c) t q found in
      rw same (after, ap (λ l. c ∷ l) joined)
]

first-IsFirstObject :
    (t r : Text)
    → balanced_from (scan_at 0 false false) (b'{' ∷ t) ≡ some r
    → IsFirstObject r (b'{' ∷ t)
unfolding Closes is_closing scan_char
first-IsFirstObject t r h =
    let (after, joined) = balanced_from-prefix (scan_at 0 false false) (b'{' ∷ t) r h in
    let (q, same, found) = scanned-next (scan_at 0 false false) b'{' t r refl h in
    let (body, rest, e, balanced, nothing) = balanced_from-Closes t 0 q found in
    record {
      before = [];
      body = body;
      after = after;
      joined = joined;
      no_brace = tt;
      braced = same ∙ ap (λ l. b'{' ∷ l) (e ∙ ap (λ l. body ++ (b'}' ∷ l)) nothing);
      balanced = balanced;
    }

later-IsFirstObject :
    (c : ℕ) (part text : Text)
    → (c == b'{') ≡ false
    → IsFirstObject part text
    → IsFirstObject part (c ∷ text)
later-IsFirstObject c part text e b = record {
  before = c ∷ b.before;
  body = b.body;
  after = b.after;
  joined = ap (λ l. c ∷ l) b.joined;
  no_brace = (e, b.no_brace);
  braced = b.braced;
  balanced = b.balanced;
}

extracted-IsFirstObject : (t r : Text) → extract_balanced_json t ≡ some r → IsFirstObject r t
unfolding extract_balanced_json
extracted-IsFirstObject [] r h = absurd (cc)
extracted-IsFirstObject (c ∷ t) r h = elim (Bool-cases (c == b'{')) [
  | inr e ↦ later-IsFirstObject c r t e (extracted-IsFirstObject t r (ground arith))
  | inl e ↦
      let here : balanced_from (scan_at 0 false false) (c ∷ t) ≡ some r = ground arith in
      let brace : c ≡ b'{' = (==_iff c b'{').0 e in
      rw brace (
        first-IsFirstObject t r
          (sym (ap (λ x. balanced_from (scan_at 0 false false) (x ∷ t)) brace) ∙ here))
]

behind-some : (a r : Text) → behind a (some r) ≡ some (a ++ r)
behind-some [] r = refl
behind-some (c ∷ a) r = ap (behind (c ∷ [])) (behind-some a r)

-- The object is found at the first brace.
object-found :
    (body after : Text)
    → Balanced body
    → balanced_from (scan_at 0 false false) (b'{' ∷ (body ++ (b'}' ∷ after)))
      ≡ some (b'{' ∷ (body ++ (b'}' ∷ [])))
unfolding balanced_from is_closing
object-found body after balanced =
    balanced_from-opening 0 (body ++ (b'}' ∷ after))
    ∙ ap (behind (b'{' ∷ []))
        (balanced_from-Balanced 0 body (b'}' ∷ after) balanced ∙ behind-some body (b'}' ∷ []))

object-extracted :
    (before body after : Text)
    → All (λ c. (c == b'{') ≡ false) before
    → Balanced body
    → extract_balanced_json (before ++ (b'{' ∷ (body ++ (b'}' ∷ after))))
      ≡ some (b'{' ∷ (body ++ (b'}' ∷ [])))
unfolding extract_balanced_json
object-extracted [] body after h balanced = object-found body after balanced
object-extracted (c ∷ before) body after (e, h) balanced =
    rw e (object-extracted before body after h balanced)

-- The object that is extracted from an answer is the part of it that begins with the first `{` and ends
-- with the `}` that is its partner, where braces in string literals do not count and a backslash in a
-- literal takes the next character with it; it is found exactly when there is such a part.
pub extract_balanced_json-IsFirstObject :
    (t r : Text) → (extract_balanced_json t ≡ some r) ↔ IsFirstObject r t
extract_balanced_json-IsFirstObject t r = (
  extracted-IsFirstObject t r,
  λ o.
      let split : t ≡ o.before ++ (b'{' ∷ (o.body ++ (b'}' ∷ o.after))) =
        o.joined
        ∙ ap (λ l. o.before ++ l)
            (ap (λ l. l ++ o.after) o.braced
              ∙ ap (λ l. b'{' ∷ l) (append-append o.body (b'}' ∷ []) o.after)) in
      ap extract_balanced_json split
      ∙ (object-extracted o.before o.body o.after o.no_brace o.balanced ∙ ap some (sym o.braced)),
)
