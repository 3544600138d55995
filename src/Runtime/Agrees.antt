-- ===== src/Runtime/Agrees.antt =====
-- Loops on a number of rounds: what more rounds change.
use xian_dex_automation.Base.{Bool, true, false, if◌then◌else◌, ◌≡◌, ◌≢◌, refl}
use xian_dex_automation.Outcome.{Outcome, ok, raised, cancelled}
use xian_dex_automation.Runtime.{World, Action, continue, ◌>>=◌}

-- The second action does what the first does, wherever the first does not run out of rounds.
pub record Agrees (m n : Action Bool) : Type 0 where
  pub at : (w : World) → (m w).0 ≢ ok false → n w ≡ m w

pub Agrees-refl : (m : Action Bool) → Agrees m m
Agrees-refl m = record { at = λ w h. refl }

pub Agrees-if :
    (b : Bool) (m n m' n' : Action Bool)
    → Agrees m m'
    → Agrees n n'
    → Agrees (if b then m else n) (if b then m' else n')
Agrees-if true m n m' n' k l = k
Agrees-if false m n m' n' k l = l

continue-Agrees :
    {A : Type 0} (f g : A → Action Bool) (o : Outcome A) (w : World)
    → ((a : A) → Agrees (f a) (g a))
    → (continue f (o, w)).0 ≢ ok false
    → continue g (o, w) ≡ continue f (o, w)
unfolding continue
continue-Agrees f g (ok a) w k h = (k a).at w h
continue-Agrees f g (raised e) w k h = refl
continue-Agrees f g cancelled w k h = refl

pub Agrees-bind :
    {A : Type 0} (m : Action A) (f g : A → Action Bool)
    → ((a : A) → Agrees (f a) (g a))
    → Agrees (m >>= f) (m >>= g)
unfolding ◌>>=◌
Agrees-bind m f g k = record { at = λ w h. let (o, w') = m w in continue-Agrees f g o w' k h }
