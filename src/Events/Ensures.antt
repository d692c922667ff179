-- ===== src/Events/Ensures.antt =====
-- What holds behind a step of the poller that returns, and behind one that raises.
use hermes_channel_octo.Prelude.{Bool, true, false, Option, none, some, if◌then◌else◌}
use hermes_channel_octo.Events.Poller.{Poller, Act, continue, ◌>>=◌}
use hermes_channel_octo.Events.Keeps.{Keeps}

-- After a step that returns, the poller has the one property, and after one that raises the other.
abbrev pub Outcome :
    {A : Type 0} → (A → Poller → Type 0) → (Poller → Type 0) → Option A × Poller → Type 0
Outcome Q R (none, p) = R p
Outcome Q R (some a, p) = Q a p

pub record Ensures {A : Type 0} (P : Poller → Type 0) (m : Act A) (Q : A → Poller → Type 0)
    (R : Poller → Type 0) : Type 0 where
  pub at : (p : Poller) → P p → Outcome Q R (m p)

pub continue-Outcome :
    {A B : Type 0} {Q : A → Poller → Type 0} {S : B → Poller → Type 0} {R : Poller → Type 0}
    (f : A → Act B) (x : Option A × Poller)
    → ((a : A) → Ensures (Q a) (f a) S R)
    → Outcome Q R x
    → Outcome S R (continue f x)
continue-Outcome f (none, p) kf h = h
continue-Outcome f (some a, p) kf h = (kf a).at p h

pub Ensures-bind :
    {A B : Type 0} {P : Poller → Type 0} {Q : A → Poller → Type 0} {S : B → Poller → Type 0}
    {R : Poller → Type 0} (m : Act A) (f : A → Act B)
    → Ensures P m Q R
    → ((a : A) → Ensures (Q a) (f a) S R)
    → Ensures P (m >>= f) S R
unfolding ◌>>=◌
Ensures-bind m f km kf = record { at = λ p h. continue-Outcome f (m p) kf (km.at p h) }

pub Ensures-if :
    {A : Type 0} {P : Poller → Type 0} {Q : A → Poller → Type 0} {R : Poller → Type 0} (b : Bool)
    (m n : Act A)
    → Ensures P m Q R
    → Ensures P n Q R
    → Ensures P (if b then m else n) Q R
Ensures-if true m n km kn = km
Ensures-if false m n km kn = kn

Outcome-same :
    {A : Type 0} (P : Poller → Type 0) (x : Option A × Poller) → P x.1 → Outcome (λ a. P) P x
Outcome-same P (none, p) h = h
Outcome-same P (some a, p) h = h

Outcome-state :
    {A : Type 0} (P : Poller → Type 0) (x : Option A × Poller) → Outcome (λ a. P) P x → P x.1
Outcome-state P (none, p) h = h
Outcome-state P (some a, p) h = h

-- A property that is preserved either way.
pub Keeps-Ensures :
    {A : Type 0} {P : Poller → Type 0} (m : Act A) → Keeps P m → Ensures P m (λ a. P) P
Keeps-Ensures {P} m k = record { at = λ p h. Outcome-same P (m p) (k.at p h) }

pub Ensures-Keeps :
    {A : Type 0} {P : Poller → Type 0} (m : Act A) → Ensures P m (λ a. P) P → Keeps P m
Ensures-Keeps {P} m e = record { at = λ p h. Outcome-state P (m p) (e.at p h) }
