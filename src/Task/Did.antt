-- ===== src/Task/Did.antt =====
-- A call that returns: its value, the state that it leaves, and what holds of both.
use fantom_os.Base.{◌≡◌}
use fantom_os.Task.{Kernel, Outcome, ok}

pub record Did {A : Type 0} (P : A → Kernel → Type 0) (r : Outcome A) : Type 0 where
  pub value : A
  pub state : Kernel
  pub returns : r ≡ ok value state
  pub post : P value state
