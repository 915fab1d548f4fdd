-- ===== src/App/Health.antt =====
-- The health route of main.py.
use collabflow.Common.{Bool, true, false, List, [], ◌∷◌, ◌++◌, codes, Text}

-- The answer: `ok` is {"status": "ok"}, and `unhealthy` the 503 with what failed.
pub data Health : Type 0 where
  ok : Health
  unhealthy : (failed : List Text) → Health

abbrev pub failure : (answered : Bool) → Text → List Text
failure true name = []
failure false name = name ∷ []

abbrev pub answer : (failures : List Text) → Health
answer [] = ok
answer (f ∷ failures) = unhealthy (f ∷ failures)

-- `database` and `redis` say whether the query and the ping returned.
unfoldable pub health : (database redis : Bool) → Health
health database redis =
    answer (failure database (codes "database") ++ failure redis (codes "redis"))
