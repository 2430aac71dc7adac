-- ===== src/Sessions/Errors.antt =====
-- The errors that the services throw: NestJS's exceptions by their class, and all others.
use nest_langgraph_ai.Prelude.{Text}

pub data ServiceError : Type 0 where
  bad_request : Text → ServiceError
  conflict : Text → ServiceError
  internal : Text → ServiceError
  other : Text → ServiceError

pub data Outcome {ℓ} (A : Type ℓ) : Type ℓ where
  done : A → Outcome A
  failed : ServiceError → Outcome A
