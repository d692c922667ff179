-- ===== src/Events/Keeps.antt =====
-- Properties that the poller's methods preserve, whether they return or raise.
use hermes_channel_octo.Prelude.{Bool, true, false, Option, none, some, if◌then◌else◌}
use hermes_channel_octo.Events.Poller.{Poller, Act, pure, gets, continue, ◌>>=◌}

pub record Keeps {A : Type 0} (P : Poller → Type 0) (method : Act A) : Type 0 where
  pub at : (p : Poller) → P p → P (method p).1

module _ {A B : Type 0} {P : Poller → Type 0} where
  pub Keeps-continue :
      (rest : A → Act B) (x : Option A × Poller)
      → ((value : A) → Keeps P (rest value))
      → P x.1
      → P (continue rest x).1
  Keeps-continue rest (none, raised) kept held = held
  Keeps-continue rest (some value, p) kept held = (kept value).at p held

  pub Keeps-bind :
      (method : Act A) (rest : A → Act B)
      → Keeps P method
      → ((value : A) → Keeps P (rest value))
      → Keeps P (method >>= rest)
  unfolding ◌>>=◌
  Keeps-bind method rest first kept = record {
    at = λ p held. Keeps-continue rest (method p) kept (first.at p held);
  }

module _ {A : Type 0} {P : Poller → Type 0} where
  pub Keeps-if :
      (test : Bool) (yes_act no_act : Act A)
      → Keeps P yes_act
      → Keeps P no_act
      → Keeps P (if test then yes_act else no_act)
  Keeps-if false yes_act no_act yes_kept no_kept = no_kept
  Keeps-if true yes_act no_act yes_kept no_kept = yes_kept

  pub Keeps-gets : (read : Poller → A) → Keeps P (gets read)
  unfolding gets
  Keeps-gets read = record { at = λ p held. held }

  pub Keeps-pure : (value : A) → Keeps P (pure value)
  unfolding pure
  Keeps-pure value = record { at = λ p held. held }

pub ruleset keeps_rules = (Keeps-bind, Keeps-if, Keeps-gets, Keeps-pure)
