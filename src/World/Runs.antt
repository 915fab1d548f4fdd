-- ===== src/World/Runs.antt =====
-- Actions that are known to return.
use collabflow.Common.{◌≡◌, ap}
use collabflow.World.State.{World, Result, ok}
use collabflow.World.Actions.{Exec, continue}

-- After a part that returned, the rest runs.
pub continue-ok :
    {A B : Type 0} (r : Result A × World) (a : A) (f : A → Exec B)
    → r.0 ≡ ok a
    → continue r f ≡ f a r.1
continue-ok (x, w) a f h = ap (λ y. continue (y, w) f) h
