-- ===== src/Bootstrap/Returns.antt =====
-- What a step of the bootstrap script that returns has done.
use xian_dex_automation.Base.{◌≡◌, refl}
use xian_dex_automation.Outcome.{Outcome, ok, raised, cancelled}
use xian_dex_automation.Bootstrap.{Place, Script, continue, ◌>>=◌}

module _ {A B : Type 0} where
  continue-ok :
      (f : A → Script B) (r : Outcome A) (s : Place) {b : B} {t : Place}
      → continue f (r, s) ≡ (ok b, t)
      → (a : A) × (r ≡ ok a) × (f a s ≡ (ok b, t))
  unfolding continue
  continue-ok f (ok a) s h = (a, refl, h)
  continue-ok f (raised e) s h = cc
  continue-ok f cancelled s h = cc

  -- Both steps have returned.
  pub >>=-ok :
      (m : Script A) (f : A → Script B) (s : Place) {b : B} {t : Place}
      → (m >>= f) s ≡ (ok b, t)
      → (a : A) × (m s ≡ (ok a, (m s).1)) × (f a (m s).1 ≡ (ok b, t))
  unfolding ◌>>=◌
  >>=-ok m f s h = let (a, e, k) = continue-ok f (m s).0 (m s).1 h in (a, (λ i. (e i, (m s).1)), k)
