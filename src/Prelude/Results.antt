-- ===== src/Prelude/Results.antt =====
-- A call that may throw. LangGraph pauses a graph by throwing a value of a class of its own
-- (`isGraphBubbleUp`), which handlers must tell from an ordinary error.
use mathlib.Core.Path.{◌≡◌, refl}
use mathlib.Core.Logic.{◌⊎◌, inl, inr}
use nest_langgraph_ai.Prelude.Texts.{Text}

pub data Thrown : Type 0 where
  error : Text → Thrown
  bubble_up : Thrown

pub data Result {ℓ} (A : Type ℓ) : Type ℓ where
  ok : A → Result A
  err : Thrown → Result A

infixl 5 ◌>>=◌
abbrev pub ◌>>=◌ {ℓ κ} : {A : Type ℓ} {B : Type κ} → Result A → (A → Result B) → Result B
ok a >>= f = f a
err e >>= f = err e

pub Result-cases {ℓ} :
    {A : Type ℓ} (m : Result A) → ((a : A) × (m ≡ ok a)) ⊎ ((e : Thrown) × (m ≡ err e))
Result-cases (ok a) = inl (a, refl)
Result-cases (err e) = inr (e, refl)

pub ok-injective {ℓ} : {A : Type ℓ} (a b : A) → ok a ≡ ok b → a ≡ b
ok-injective a b h = cc

-- How a call ends whose errors are only read for their message.
pub data Settled {ℓ} (A : Type ℓ) : Type ℓ where
  returned : A → Settled A
  threw : Text → Settled A

pub Settled-cases {ℓ} :
    {A : Type ℓ} (o : Settled A)
    → ((x : A) × (o ≡ returned x)) ⊎ ((message : Text) × (o ≡ threw message))
Settled-cases (returned x) = inl (x, refl)
Settled-cases (threw message) = inr (message, refl)
