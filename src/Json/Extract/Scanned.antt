-- ===== src/Json/Extract/Scanned.antt =====
-- The scanner of `extractBalancedJson` (src/common/utils/json.util.ts) stops only behind texts of the
-- grammar.
use nest_langgraph_ai.Prelude.{
  Text, ℕ, zero, suc, ◌≡◌, refl, sym, ap, ◌∙◌, inl, inr, true, false, Bool, not, some, [], ◌∷◌,
  ◌++◌, ◌==◌, ==_iff, Bool-cases, Option-cases, arith,
}
use nest_langgraph_ai.Json.Extract.{Scan, scan_char, is_closing, balanced_from}
use nest_langgraph_ai.Json.Extract.Grammar.{
  Quoted, closed, escaped, plain, Balanced, empty, other, quoted, nested, scan_at, append-append,
  less_one, one_more, and_false,
}

-- A text that closes so many braces, with balanced texts between them.
unfoldable pub Closes : ℕ → Text → Type 0
Closes zero t = t ≡ []
Closes (suc n) t =
    (b : Text) × (rest : Text) × (t ≡ b ++ (b'}' ∷ rest)) × Balanced b × Closes n rest

-- A text that begins inside a string literal.
InLiteral : ℕ → Text → Type 0
unfolding Closes
InLiteral n t = (l : Text) × (rest : Text) × (t ≡ l ++ rest) × Quoted l × Closes n rest

-- What the scanner has before it, inside a literal or not.
Within : ℕ → (in_string : Bool) → Text → Type 0
unfolding InLiteral Closes
Within n true t = InLiteral n t
Within n false t = Closes n t

-- The same, and one more character behind a backslash.
Before : ℕ → (in_string escape : Bool) → Text → Type 0
unfolding Within
Before n in_string true t = (c : ℕ) × (rest : Text) × (t ≡ c ∷ rest) × Within n in_string rest
Before n in_string false t = Within n in_string t

Closes-other :
    (n c : ℕ) (t : Text)
    → (c == b'"') ≡ false
    → (c == b'{') ≡ false
    → (c == b'}') ≡ false
    → Closes (suc n) t
    → Closes (suc n) (c ∷ t)
unfolding Closes
Closes-other n c t quote opening closing (b, rest, e, balanced, more) =
    (c ∷ b, rest, ap (λ l. c ∷ l) e, other c b quote opening closing balanced, more)

Closes-quoted : (n : ℕ) (t : Text) → InLiteral (suc n) t → Closes (suc n) (b'"' ∷ t)
unfolding Closes InLiteral
Closes-quoted n t (l, r, e, q, (b, rest, f, balanced, more)) = (
  b'"' ∷ (l ++ b),
  rest,
  ap (λ u. b'"' ∷ u) (e ∙ (ap (λ u. l ++ u) f ∙ sym (append-append l b (b'}' ∷ rest)))),
  quoted l b q balanced,
  more,
)

Closes-nested : (n : ℕ) (t : Text) → Closes (suc (suc n)) t → Closes (suc n) (b'{' ∷ t)
unfolding Closes
Closes-nested n t (inner, r, e, balanced, (b, rest, f, more_balanced, more)) = (
  b'{' ∷ (inner ++ (b'}' ∷ b)),
  rest,
  ap (λ u. b'{' ∷ u)
      (e ∙ (ap (λ u. inner ++ (b'}' ∷ u)) f ∙ sym (append-append inner (b'}' ∷ b) (b'}' ∷ rest)))),
  nested inner b balanced more_balanced,
  more,
)

Closes-closing : (n : ℕ) (t : Text) → Closes n t → Closes (suc n) (b'}' ∷ t)
unfolding Closes
Closes-closing n t more = ([], t, refl, empty, more)

literal-closed : (n : ℕ) (t : Text) → Closes n t → InLiteral n (b'"' ∷ t)
unfolding InLiteral
literal-closed n t more = (b'"' ∷ [], t, refl, closed, more)

literal-escaped : (n c : ℕ) (t : Text) → InLiteral n t → InLiteral n (b'\\' ∷ c ∷ t)
unfolding InLiteral
literal-escaped n c t (l, rest, e, q, more) =
    (b'\\' ∷ c ∷ l, rest, ap (λ u. b'\\' ∷ c ∷ u) e, escaped c l q, more)

literal-plain :
    (n c : ℕ) (t : Text)
    → (c == b'"') ≡ false
    → (c == b'\\') ≡ false
    → InLiteral n t
    → InLiteral n (c ∷ t)
unfolding InLiteral
literal-plain n c t quote backslash (l, rest, e, q, more) =
    (c ∷ l, rest, ap (λ u. c ∷ u) e, plain c l quote backslash q, more)

-- One character that does not close the first brace.
pub scanned-next :
    (s : Scan) (c : ℕ) (t r : Text)
    → is_closing s c ≡ false
    → balanced_from s (c ∷ t) ≡ some r
    → (q : Text) × (r ≡ c ∷ q) × (balanced_from (scan_char s c) t ≡ some q)
unfolding balanced_from
scanned-next s c t r e h = elim (Option-cases (balanced_from (scan_char s c) t)) [
  | inl n ↦ absurd (ground arith)
  | inr (q, found) ↦ (q, ground arith, found)
]

scanned-last :
    (s : Scan) (c : ℕ) (t r : Text)
    → is_closing s c ≡ true
    → balanced_from s (c ∷ t) ≡ some r
    → r ≡ c ∷ []
unfolding balanced_from
scanned-last s c t r e h = ground arith

-- The scanner's states behind a character.
module _ (d c : ℕ) where
  scan-backslash : (c == b'\\') ≡ true → scan_char (scan_at d true false) c ≡ scan_at d true true
  unfolding scan_char
  scan-backslash e = rw e refl

  scan-quote :
      (in_string : Bool)
      → (c == b'"') ≡ true
      → scan_char (scan_at d in_string false) c ≡ scan_at d (not in_string) false
  unfolding scan_char
  scan-quote in_string e = rw ((==_iff c b'"').0 e) refl

  scan-plain :
      (c == b'\\') ≡ false
      → (c == b'"') ≡ false
      → scan_char (scan_at d true false) c ≡ scan_at d true false
  unfolding scan_char
  scan-plain e f = rw (e, f) refl

  scan-opening :
      (c == b'{') ≡ true → scan_char (scan_at d false false) c ≡ scan_at (suc d) false false
  unfolding scan_char
  scan-opening e = rw ((==_iff c b'{').0 e) (ap (λ k. scan_at k false false) (one_more d))

  scan-closing :
      (c == b'}') ≡ true
      → scan_char (scan_at (suc (suc d)) false false) c ≡ scan_at (suc d) false false
  unfolding scan_char
  scan-closing e = rw ((==_iff c b'}').0 e) (ap (λ k. scan_at k false false) (less_one d))

  scan-other :
      (c == b'"') ≡ false
      → (c == b'{') ≡ false
      → (c == b'}') ≡ false
      → scan_char (scan_at d false false) c ≡ scan_at d false false
  unfolding scan_char
  scan-other e f g = rw (and_false (c == b'\\'), e, f, g) refl

-- One character, where the rest of the text is read as it should.
module _ (t : Text)
    (rest_read : (n : ℕ) (in_string escape : Bool) (r : Text)
      → balanced_from (scan_at (suc n) in_string escape) t ≡ some r
      → Before (suc n) in_string escape r) where
  then_at :
      (n : ℕ) (in_string escape : Bool) (s : Scan) (q : Text)
      → s ≡ scan_at (suc n) in_string escape
      → balanced_from s t ≡ some q
      → Before (suc n) in_string escape q
  then_at n in_string escape s q e h =
      rest_read n in_string escape q (sym (ap (λ u. balanced_from u t) e) ∙ h)

  in_literal :
      (n c : ℕ) (q : Text)
      → balanced_from (scan_char (scan_at (suc n) true false) c) t ≡ some q
      → InLiteral (suc n) (c ∷ q)
  unfolding Before Within
  in_literal n c q h = elim (Bool-cases (c == b'\\')) [
    | inl e ↦
        let (x, rest, f, more) = then_at n true true _ q (scan-backslash (suc n) c e) h in
        rw ((==_iff c b'\\').0 e, f) (literal-escaped (suc n) x rest more)
    | inr e ↦ elim (Bool-cases (c == b'"')) [
      | inl f ↦
          rw ((==_iff c b'"').0 f)
            (literal-closed (suc n) q (then_at n false false _ q (scan-quote (suc n) c true f) h))
      | inr f ↦
          literal-plain (suc n) c q f e (then_at n true false _ q (scan-plain (suc n) c e f) h)
    ]
  ]

  at_closing :
      (n c : ℕ) (q : Text)
      → (c == b'}') ≡ true
      → is_closing (scan_at (suc n) false false) c ≡ false
      → balanced_from (scan_char (scan_at (suc n) false false) c) t ≡ some q
      → Closes (suc n) (c ∷ q)
  unfolding Before Within is_closing
  at_closing zero c q e inside h = absurd (ground arith)
  at_closing (suc m) c q e inside h =
      rw ((==_iff c b'}').0 e)
        (Closes-closing (suc m) q (then_at m false false _ q (scan-closing m c e) h))

  outside :
      (n c : ℕ) (q : Text)
      → is_closing (scan_at (suc n) false false) c ≡ false
      → balanced_from (scan_char (scan_at (suc n) false false) c) t ≡ some q
      → Closes (suc n) (c ∷ q)
  unfolding Before Within
  outside n c q inside h = elim (Bool-cases (c == b'"')) [
    | inl e ↦
        rw ((==_iff c b'"').0 e)
          (Closes-quoted n q (then_at n true false _ q (scan-quote (suc n) c false e) h))
    | inr e ↦ elim (Bool-cases (c == b'{')) [
      | inl f ↦
          rw ((==_iff c b'{').0 f)
            (Closes-nested n q (then_at (suc n) false false _ q (scan-opening (suc n) c f) h))
      | inr f ↦ elim (Bool-cases (c == b'}')) [
        | inl g ↦ at_closing n c q g inside h
        | inr g ↦
            Closes-other n c q e f g (then_at n false false _ q (scan-other (suc n) c e f g) h)
      ]
    ]
  ]

at_last : (n c : ℕ) → is_closing (scan_at (suc n) false false) c ≡ true → (c ≡ b'}') × (n ≡ 0)
unfolding is_closing
at_last n c h = ground arith

last-Closes : (n c : ℕ) → c ≡ b'}' → n ≡ 0 → Closes (suc n) (c ∷ [])
unfolding Closes
last-Closes n c e f = rw (e, f) (Closes-closing 0 [] refl)

-- What the scanner returns is read as it should.
scanned-Before :
    (t : Text) (n : ℕ) (in_string escape : Bool) (r : Text)
    → balanced_from (scan_at (suc n) in_string escape) t ≡ some r
    → Before (suc n) in_string escape r
unfolding Before Within is_closing scan_char balanced_from
scanned-Before [] n in_string escape r h = absurd (cc)
scanned-Before (c ∷ t) n in_string true r h =
    let (q, e, f) = scanned-next (scan_at (suc n) in_string true) c t r refl h in
    (c, q, e, scanned-Before t n in_string false q f)
scanned-Before (c ∷ t) n true false r h =
    let (q, e, f) = scanned-next (scan_at (suc n) true false) c t r refl h in
    rw e (in_literal t (scanned-Before t) n c q f)
scanned-Before (c ∷ t) n false false r h =
    elim (Bool-cases (is_closing (scan_at (suc n) false false) c)) [
      | inl l ↦
          let (e, f) = at_last n c l in
          rw (scanned-last (scan_at (suc n) false false) c t r l h) (last-Closes n c e f)
      | inr inside ↦
          let (q, e, f) = scanned-next (scan_at (suc n) false false) c t r inside h in
          rw e (outside t (scanned-Before t) n c q inside f)
    ]

pub balanced_from-Closes :
    (t : Text) (n : ℕ) (r : Text)
    → balanced_from (scan_at (suc n) false false) t ≡ some r
    → Closes (suc n) r
unfolding Before Within
balanced_from-Closes t n r h = scanned-Before t n false false r h
