-- ===== src/Json/Extract/Grammar.antt =====
-- The texts that `extractBalancedJson` of src/common/utils/json.util.ts looks for, as a grammar, and
-- that its scanner reads over them.
use nest_langgraph_ai.Prelude.{
  Text, ℕ, suc, ◌+◌, ◌-◌, ◌≡◌, refl, sym, ap, ◌∙◌, true, false, Bool, ◌&&◌, Option, none, some, [],
  ◌∷◌, ◌++◌, ◌==◌, arith,
}
use nest_langgraph_ai.Json.Extract.{Scan, scan_char, is_closing, balanced_from}

-- A string literal from behind its opening quote, with its closing one; a backslash takes the next
-- character with it.
pub data Quoted : Text → Type 0 where
  closed : Quoted (b'"' ∷ [])
  escaped : (c : ℕ) (t : Text) → Quoted t → Quoted (b'\\' ∷ c ∷ t)
  plain :
      (c : ℕ) (t : Text) → (c == b'"') ≡ false → (c == b'\\') ≡ false → Quoted t → Quoted (c ∷ t)

-- Texts in which each brace outside a string literal has its partner.
pub data Balanced : Text → Type 0 where
  empty : Balanced []
  other :
      (c : ℕ) (t : Text)
      → (c == b'"') ≡ false
      → (c == b'{') ≡ false
      → (c == b'}') ≡ false
      → Balanced t
      → Balanced (c ∷ t)
  quoted : (l t : Text) → Quoted l → Balanced t → Balanced (b'"' ∷ (l ++ t))
  nested : (inner t : Text) → Balanced inner → Balanced t → Balanced (b'{' ∷ (inner ++ (b'}' ∷ t)))

-- The scanner's state.
abbrev pub scan_at : ℕ → (in_string escape : Bool) → Scan
scan_at depth in_string escape = record { depth = depth; in_string = in_string; escape = escape }

-- What the scanner returns, behind characters that it read before.
abbrev pub behind : Text → Option Text → Option Text
behind [] o = o
behind (c ∷ t) o = elim (behind t o) [ none ↦ none | some r ↦ some (c ∷ r) ]

behind-append : (a b : Text) (o : Option Text) → behind (a ++ b) o ≡ behind a (behind b o)
behind-append [] b o = refl
behind-append (c ∷ a) b o = ap (behind (c ∷ [])) (behind-append a b o)

pub append-append : (a b c : Text) → (a ++ b) ++ c ≡ a ++ (b ++ c)
append-append [] b c = refl
append-append (x ∷ a) b c = ap (λ t. x ∷ t) (append-append a b c)

pub and_false : (b : Bool) → (b && false) ≡ false
and_false true = refl
and_false false = refl

balanced_from-Quoted :
    (depth : ℕ) (l k : Text)
    → Quoted l
    → balanced_from (scan_at depth true false) (l ++ k)
      ≡ behind l (balanced_from (scan_at depth false false) k)
unfolding balanced_from scan_char is_closing
balanced_from-Quoted depth _ k closed = refl
balanced_from-Quoted depth _ k (escaped c t q) =
    ap (behind (b'\\' ∷ c ∷ [])) (balanced_from-Quoted depth t k q)
balanced_from-Quoted depth _ k (plain c t quote backslash q) =
    rw (quote, backslash) (ap (behind (c ∷ [])) (balanced_from-Quoted depth t k q))

-- A closing brace inside the first one.
closed_inside : (n : ℕ) → (suc (suc n) == 1) ≡ false
closed_inside n = ground arith

pub less_one : (n : ℕ) → suc (suc n) - 1 ≡ suc n
less_one n = omega arith

pub one_more : (n : ℕ) → n + 1 ≡ suc n
one_more n = omega arith

balanced_from-inner :
    (n : ℕ) (k : Text)
    → balanced_from (scan_at (suc (suc n)) false false) (b'}' ∷ k)
      ≡ behind (b'}' ∷ []) (balanced_from (scan_at (suc n) false false) k)
unfolding balanced_from scan_char is_closing
balanced_from-inner n k =
    rw (closed_inside n)
      (ap (λ d. behind (b'}' ∷ []) (balanced_from (scan_at d false false) k)) (less_one n))

-- An opening brace at any depth.
pub balanced_from-opening :
    (n : ℕ) (k : Text)
    → balanced_from (scan_at n false false) (b'{' ∷ k)
      ≡ behind (b'{' ∷ []) (balanced_from (scan_at (suc n) false false) k)
unfolding balanced_from scan_char is_closing
balanced_from-opening n k =
    ap (λ d. behind (b'{' ∷ []) (balanced_from (scan_at d false false) k)) (one_more n)

pub balanced_from-Balanced :
    (n : ℕ) (b k : Text)
    → Balanced b
    → balanced_from (scan_at (suc n) false false) (b ++ k)
      ≡ behind b (balanced_from (scan_at (suc n) false false) k)
unfolding balanced_from scan_char is_closing
balanced_from-Balanced n _ k empty = refl
balanced_from-Balanced n _ k (other c t quote opening closing more) =
    rw (and_false (c == b'\\'), quote, opening, closing)
      (ap (behind (c ∷ [])) (balanced_from-Balanced n t k more))
balanced_from-Balanced n _ k (quoted l t q more) = ap (behind (b'"' ∷ [])) (
    ap (balanced_from (scan_at (suc n) true false)) (append-append l t k)
    ∙ (balanced_from-Quoted (suc n) l (t ++ k) q
        ∙ (ap (behind l) (balanced_from-Balanced n t k more)
            ∙ sym (behind-append l t (balanced_from (scan_at (suc n) false false) k)))))
balanced_from-Balanced n _ k (nested inner t i more) =
    balanced_from-opening (suc n) ((inner ++ (b'}' ∷ t)) ++ k)
    ∙ ap (behind (b'{' ∷ [])) (
        ap (balanced_from (scan_at (suc (suc n)) false false)) (append-append inner (b'}' ∷ t) k)
        ∙ (balanced_from-Balanced (suc n) inner (b'}' ∷ (t ++ k)) i
            ∙ (ap (behind inner) (
                  balanced_from-inner n (t ++ k)
                  ∙ ap (behind (b'}' ∷ [])) (balanced_from-Balanced n t k more))
                ∙ sym (
                    behind-append inner (b'}' ∷ t)
                      (balanced_from (scan_at (suc n) false false) k)))))
