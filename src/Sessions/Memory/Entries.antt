-- ===== src/Sessions/Memory/Entries.antt =====
-- The entries that a session's memory keeps
-- (src/modules/agents/services/session-memory.service.ts).
use mathlib.Core.List.{append_assoc}
use nest_langgraph_ai.Prelude.{
  Text, ◌+◌, ◌≤◌, ◌≡◌, ◌≢◌, refl, sym, ap, ◌∙◌, true, false, not, Option, some, List, [], ◌∷◌, ◌++◌,
  map, join, length, length-append, length-take-le, take, ltb, starts_with, split, split_from,
  cons_first, trim, text_eq, text_eq_iff, keep_if, is_empty, All, All-take, All-keep_if, Bool-cases,
  inl, inr, codes, arith,
}
use nest_langgraph_ai.Config.{Env}
use nest_langgraph_ai.Sessions.Memory.{
  separator, parse_entries, kept_entries, max_chars, truncate, merge,
}

starts_with-longer : (p t r : Text) → length p ≤ length t → starts_with p (t ++ r) ≡ starts_with p t
unfolding starts_with
starts_with-longer [] t r h = refl
starts_with-longer (a ∷ p) [] r h = absurd (omega arith)
starts_with-longer (a ∷ p) (b ∷ t) r h = ground (arith, starts_with-longer p t r (omega arith))

starts_with-extended : (p t r : Text) → starts_with p t ≡ true → starts_with p (t ++ r) ≡ true
unfolding starts_with
starts_with-extended [] t r h = refl
starts_with-extended (a ∷ p) [] r h = ground arith
starts_with-extended (a ∷ p) (b ∷ t) r h = ground (arith, starts_with-extended p t r (ground arith))

truncated : (env : Env) (t : Text) → length (truncate env t) ≤ max_chars env + 15
unfolding truncate codes
truncated env t = elim (Bool-cases (ltb (max_chars env) (length t))) [
  | inr e ↦ rw e (ground (arith, e))
  | inl e ↦ rw e (
      omega (
        arith,
        length-append (take (max_chars env) t) (10 ∷ codes "...[truncated]"),
        length-take-le (max_chars env) t,
      ))
]

-- With a separator behind it, the text has none before that.
abbrev pub IsApart : Text → Type 0
IsApart [] = Unit
IsApart (c ∷ p) = (starts_with separator ((c ∷ p) ++ separator) ≡ false) × IsApart p

split-first :
    (p r : Text)
    → IsApart p
    → split_from separator 0 (p ++ (separator ++ r)) ≡ p ∷ split_from separator 0 r
unfolding split_from starts_with
split-first [] r h = refl
split-first (c ∷ p) r (h, more) =
    let far : starts_with separator (c ∷ (p ++ (separator ++ r))) ≡ false =
      ap (starts_with separator) (sym (append_assoc (c ∷ p) separator r))
      ∙ (starts_with-longer separator ((c ∷ p) ++ separator) r
            (omega (arith, length-append (c ∷ p) separator))
          ∙ h) in
    rw far (ap (cons_first c) (split-first p r more))

split-last : (p : Text) → IsApart p → split_from separator 0 p ≡ p ∷ []
unfolding split_from
split-last [] h = refl
split-last (c ∷ p) (h, more) = elim (Bool-cases (starts_with separator (c ∷ p))) [
  | inl e ↦ absurd (ground (arith, starts_with-extended separator (c ∷ p) separator e, h))
  | inr e ↦ rw e (ap (cons_first c) (split-last p more))
]

-- An entry as a merge stores it: trimmed, not empty, and apart from separators.
pub record IsEntry (e : Text) : Type 0 where
  pub apart : IsApart e
  pub trimmed : trim e ≡ e
  pub filled : is_empty e ≡ false

split-join :
    (e : Text) (es : List Text)
    → IsEntry e
    → All IsEntry es
    → split separator (join separator (e ∷ es)) ≡ e ∷ es
unfolding split join
split-join e [] h more = split-last e h.apart
split-join e (f ∷ es) h (g, more) =
    split-first e (join separator (f ∷ es)) h.apart ∙ ap (λ r. e ∷ r) (split-join f es g more)

map-trim-All : (es : List Text) → All IsEntry es → map trim es ≡ es
map-trim-All [] h = refl
map-trim-All (e ∷ es) (h, more) =
    ap (λ x. x ∷ map trim es) h.trimmed ∙ ap (λ xs. e ∷ xs) (map-trim-All es more)

keep_if-All : (es : List Text) → All IsEntry es → keep_if (λ e. not (is_empty e)) es ≡ es
keep_if-All [] h = refl
keep_if-All (e ∷ es) (h, more) = rw h.filled (ap (λ xs. e ∷ xs) (keep_if-All es more))

empty-not-filled : is_empty [] ≢ false
empty-not-filled h = ground arith

join-filled : (e : Text) (es : List Text) → IsEntry e → is_empty (join separator (e ∷ es)) ≡ false
unfolding join
join-filled [] es h = absurd (empty-not-filled h.filled)
join-filled (c ∷ e) [] h = refl
join-filled (c ∷ e) (f ∷ es) h = refl

parse_entries-join :
    (es : List Text) → All IsEntry es → parse_entries (some (join separator es)) ≡ es
unfolding parse_entries join
parse_entries-join [] h = refl
parse_entries-join (e ∷ es) (h, more) = rw (join-filled e es h) (
    ap (λ ts. keep_if (λ t. not (is_empty t)) (map trim ts)) (split-join e es h more)
    ∙ (ap (keep_if (λ t. not (is_empty t))) (map-trim-All (e ∷ es) (h, more))
        ∙ keep_if-All (e ∷ es) (h, more)))

kept_entries-All :
    (es : List Text) (entry : Text)
    → All IsEntry es
    → IsEntry entry
    → All IsEntry (kept_entries es entry)
unfolding kept_entries
kept_entries-All es entry h new =
    All-take IsEntry 3 (entry ∷ keep_if (λ item. not (text_eq item entry)) es)
      (new, All-keep_if IsEntry (λ item. not (text_eq item entry)) es h)

-- The second list is the first one without the text.
pub data Without (x : Text) : List Text → List Text → Type 0 where
  none_left : Without x [] []
  left_out : (es os : List Text) → Without x es os → Without x (x ∷ es) os
  taken : (e : Text) (es os : List Text) → e ≢ x → Without x es os → Without x (e ∷ es) (e ∷ os)

keep_if-Without :
    (x : Text) (es : List Text) → Without x es (keep_if (λ item. not (text_eq item x)) es)
keep_if-Without x [] = none_left
keep_if-Without x (e ∷ es) = elim (Bool-cases (text_eq e x)) [
  | inl same ↦ rw (same, (text_eq_iff e x).0 same) (left_out es _ (keep_if-Without x es))
  | inr differs ↦ rw differs (
      taken e es _ (λ same. absurd (ground (arith, (text_eq_iff e x).1 same, differs)))
        (keep_if-Without x es))
]

parse_entries-kept :
    (env : Env) (es : List Text) (entry : Text)
    → All IsEntry es
    → IsEntry entry
    → length (join separator (kept_entries es entry)) ≤ max_chars env
    → parse_entries (some (merge env (some (join separator es)) entry))
      ≡ take 3 (entry ∷ keep_if (λ item. not (text_eq item entry)) es)
unfolding merge truncate kept_entries
parse_entries-kept env es entry h new le =
    let short : ltb (max_chars env) (length (join separator (kept_entries es entry))) ≡ false =
      ground arith in
    rw (parse_entries-join es h)
      (rw short (parse_entries-join (kept_entries es entry) (kept_entries-All es entry h new)))

-- Entries that are stored and then merged with a new one are read back as the first three of the new
-- one and then the others without it, in their order, where each entry is trimmed, not empty and apart
-- from separators and the stored text of the entries that are kept is no longer than allowed.
pub parse_entries-merge :
    (env : Env) (es : List Text) (entry : Text)
    → All IsEntry es
    → IsEntry entry
    → length (join separator (kept_entries es entry)) ≤ max_chars env
    → (others : List Text) × Without entry es others
      × (parse_entries (some (merge env (some (join separator es)) entry))
          ≡ take 3 (entry ∷ others))
unfolding merge truncate
parse_entries-merge env es entry h new le = (
  keep_if (λ item. not (text_eq item entry)) es,
  keep_if-Without entry es,
  parse_entries-kept env es entry h new le,
)

-- The memory that a merge makes is at most 15 units longer than allowed.
pub length-merge :
    (env : Env) (previous : Option Text) (entry : Text)
    → length (merge env previous entry) ≤ max_chars env + 15
unfolding merge
length-merge env previous entry =
    truncated env (join separator (kept_entries (parse_entries previous) entry))
