-- ===== src/Prelude/Texts.antt =====
-- Strings as lists of UTF-16 code units, with the methods of `String` that the program calls:
-- `===`, `startsWith`, `includes`, `trim`, `trimStart`, `slice(0, n)`, `join`, `replaceAll`, and the
-- printing of a number in a template.
use Prim.Native.Char.{code}
use Prim.Native.String.{String}
use Prim.Native.Nat.{ℕ, zero, suc, ◌+◌, ◌-◌, ◌/◌, ◌%◌}
use mathlib.Core.Path.{◌≡◌, refl, sym, ap}
use mathlib.Core.Logic.{◌↔◌, inl, inr}
use mathlib.Core.Bool.{Bool, true, false, not, ◌&&◌, ◌||◌}
use mathlib.Core.List.{List, [], ◌∷◌, ◌++◌, reverse}
use native.Mathlib.Omega.{arith}
use nest_langgraph_ai.Prelude.Tests.{==_iff, ltb, leb, ◌==◌, if◌then◌else◌, Bool-cases}
use nest_langgraph_ai.Prelude.Lists.{length, drop, keep_if}

abbrev pub Text : Type 0
Text = List ℕ

-- The code units of a literal, which is ASCII or within the basic plane.
unfoldable pub codes : String → Text
codes String.[] = []
codes (String.◌∷◌ c s) = code c ∷ codes s

unfoldable pub text_eq : Text → Text → Bool
text_eq [] [] = true
text_eq [] (b ∷ t) = false
text_eq (a ∷ s) [] = false
text_eq (a ∷ s) (b ∷ t) = a == b && text_eq s t

pub text_eq_iff : (s t : Text) → (text_eq s t ≡ true) ↔ (s ≡ t)
unfolding text_eq
text_eq_iff [] [] = ground arith
text_eq_iff [] (b ∷ t) = ground arith
text_eq_iff (a ∷ s) [] = ground arith
text_eq_iff (a ∷ s) (b ∷ t) = ground (arith, text_eq_iff s t)

pub text_eq_refl : (s : Text) → text_eq s s ≡ true
text_eq_refl s = (text_eq_iff s s).1 refl

-- `text.startsWith(prefix)`, the prefix first.
unfoldable pub starts_with : Text → Text → Bool
starts_with [] t = true
starts_with (a ∷ p) [] = false
starts_with (a ∷ p) (b ∷ t) = a == b && starts_with p t

-- A text that starts with a prefix is the prefix with the rest behind it.
pub starts_with-append : (p t : Text) → starts_with p t ≡ true → t ≡ p ++ drop (length p) t
unfolding starts_with
starts_with-append [] t h = refl
starts_with-append (a ∷ p) [] h = ground arith
starts_with-append (a ∷ p) (b ∷ t) h =
    let e : a ≡ b = (==_iff a b).0 (ground arith) in
    let f : t ≡ p ++ drop (length p) t = starts_with-append p t (ground arith) in cc

pub starts_with-prefix : (p t : Text) → starts_with p (p ++ t) ≡ true
unfolding starts_with
starts_with-prefix [] t = refl
starts_with-prefix (a ∷ p) t = rw ((==_iff a a).1 refl, starts_with-prefix p t) refl

-- `text.includes(part)`, the part first.
unfoldable pub includes : Text → Text → Bool
unfolding starts_with
includes p [] = starts_with p []
includes p (c ∷ t) = starts_with p (c ∷ t) || includes p t

-- `text.endsWith(suffix)`, the suffix first.
unfoldable pub ends_with : Text → Text → Bool
unfolding text_eq
ends_with p [] = text_eq p []
ends_with p (c ∷ t) = text_eq p (c ∷ t) || ends_with p t

-- A text that ends with a suffix is something with the suffix behind it.
pub ends_with-append : (p t : Text) → ends_with p t ≡ true → (x : Text) × (t ≡ x ++ p)
unfolding ends_with
ends_with-append p [] h = ([], sym ((text_eq_iff p []).0 h))
ends_with-append p (c ∷ t) h = elim (Bool-cases (text_eq p (c ∷ t))) [
  | inl e ↦ ([], sym ((text_eq_iff p (c ∷ t)).0 e))
  | inr e ↦ let (x, f) = ends_with-append p t (ground arith) in (c ∷ x, ap (λ u. c ∷ u) f)
]

-- `Array.from(new Set(texts))`.
unfoldable pub unique : List Text → List Text
unfolding text_eq
unique [] = []
unique (x ∷ xs) = x ∷ keep_if (λ y. not (text_eq x y)) (unique xs)

unfoldable pub is_space : ℕ → Bool
is_space c =
    (leb 9 c && leb c 13)
    || c == 32
    || c == 160
    || c == 0x1680
    || (leb 0x2000 c && leb c 0x200a)
    || c == 0x2028
    || c == 0x2029
    || c == 0x202f
    || c == 0x205f
    || c == 0x3000
    || c == 0xfeff

unfoldable pub trim_start : Text → Text
unfolding is_space
trim_start [] = []
trim_start (c ∷ t) = if is_space c then trim_start t else c ∷ t

unfoldable pub trim : Text → Text
unfolding trim_start
trim t = reverse (trim_start (reverse (trim_start t)))

-- Falsy strings are the empty ones.
abbrev pub is_empty : Text → Bool
is_empty [] = true
is_empty (c ∷ t) = false

-- The digits of a number in a template, as many as the fuel.
digits_of : ℕ → ℕ → Text → Text
digits_of zero n acc = acc
digits_of (suc f) n acc =
    let rest = digits_of f (n / 10) ((48 + n % 10) ∷ acc) in
    if ltb n 10 then (48 + n) ∷ acc else rest

unfoldable pub decimal : ℕ → Text
unfolding digits_of
decimal n = digits_of (suc n) n []

unfoldable pub join : Text → List Text → Text
join sep [] = []
join sep (t ∷ []) = t
join sep (t ∷ u ∷ ts) = t ++ (sep ++ join sep (u ∷ ts))

-- One unit of a replacement string: `$$`, `$&`, `` $` `` and `$'` stand for other text. The Boolean
-- says that the unit before was an unpaired `$`.
special : (matched before after : Text) → Bool → ℕ → Text × Bool
special matched before after false c = if c == b'$' then ([], true) else (c ∷ [], false)
special matched before after true c =
    if c == b'$'
    then (b'$' ∷ [], false)
    else (if c == b'&'
        then (matched, false)
        else (if c == b'`'
            then (before, false)
            else (if c == 39 then (after, false) else (b'$' ∷ c ∷ [], false))))

expand_from : (matched before after : Text) → Bool → Text → Text
expand_from m b a false [] = []
expand_from m b a true [] = b'$' ∷ []
expand_from m b a pending (c ∷ r) =
    let (emitted, pending') = special m b a pending c in emitted ++ expand_from m b a pending' r

-- What a replacement string stands for at one match.
unfoldable pub expand : (matched before after replacement : Text) → Text
unfolding expand_from special
expand m b a r = expand_from m b a false r

-- One position of `replaceAll`: what is emitted, and how many units to skip after it.
replace_at : (pattern replacement before here : Text) → ℕ → ℕ → Text × ℕ
replace_at p r before here c zero =
    if starts_with p here
    then (expand p before (drop (length p) here) r, length p - 1)
    else (c ∷ [], 0)
replace_at p r before here c (suc k) = ([], k)

replace_from : (pattern replacement : Text) → ℕ → (before rest : Text) → Text
replace_from p r skip before [] = []
replace_from p r skip before (c ∷ t) =
    let (emitted, skip') = replace_at p r before (c ∷ t) c skip in
    emitted ++ replace_from p r skip' (before ++ c ∷ []) t

-- `text.replaceAll(pattern, replacement)` for a pattern that is not empty.
unfoldable pub replace_all : (pattern replacement text : Text) → Text
unfolding replace_from replace_at expand starts_with
replace_all p r t = replace_from p r 0 [] t

-- A replacement with no `$` stands for itself.
abbrev pub HasNoDollar : Text → Type 0
HasNoDollar [] = Unit
HasNoDollar (c ∷ t) = ((c == b'$') ≡ false) × HasNoDollar t

expand_plain : (m b a r : Text) → HasNoDollar r → expand m b a r ≡ r
unfolding expand
expand_plain m b a [] h = refl
expand_plain m b a (c ∷ r) h = rw (h.0) (ap (λ t. c ∷ t) (expand_plain m b a r h.1))

replace_from_absent : (p r before t : Text) → includes p t ≡ false → replace_from p r 0 before t ≡ t
unfolding replace_from replace_at includes
replace_from_absent p r before [] h = refl
replace_from_absent p r before (c ∷ t) h =
    let i : includes p t ≡ false = ground arith in
    ground (arith, replace_from_absent p r (before ++ c ∷ []) t i)

-- With no occurrence of the pattern the text is unchanged.
pub replace_all_absent : (p r t : Text) → includes p t ≡ false → replace_all p r t ≡ t
unfolding replace_all
replace_all_absent p r t h = replace_from_absent p r [] t h
