-- ===== src/Migrations/Server.antt =====
-- Alembic's run of a list of operations on the database server.
use collabflow.Common.{
  Option, some, List, [], ◌∷◌, ◌≡◌, ◌∙◌, refl, ap, inl, inr, Option-cases, arith,
}
use collabflow.Migrations.Catalog.{Catalog, Op, apply, then_run, run}

-- The server. It obeys an operation that its catalog allows.
pub record Server : Type 1 where
  pub State : Type 0
  pub execute : Op → State → Option State
  pub catalog : State → Catalog
  pub obeys :
      (op : Op) (s : State) (c : Catalog)
      → apply op (catalog s) ≡ some c
      → (t : State) × (execute op s ≡ some t) × (catalog t ≡ c)

module _ (server : Server) where
  unfoldable pub execute_all : List Op → server.State → Option server.State
  execute_all [] s = some s
  execute_all (op ∷ ops) s = then_run (server.execute op s) (execute_all ops)

  -- The operations run on the server in the state `s` and leave the catalog `c`.
  abbrev pub Leads : List Op → (s : server.State) (c : Catalog) → Type 0
  Leads ops s c = (t : server.State) × (execute_all ops s ≡ some t) × (server.catalog t ≡ c)

  pub execute_all-run :
      (ops : List Op) (s : server.State) (c d : Catalog)
      → server.catalog s ≡ c
      → run ops c ≡ some d
      → Leads ops s d
  unfolding execute_all run
  execute_all-run [] s c d at_c h = (s, refl, at_c ∙ ground arith)
  execute_all-run (op ∷ ops) s c d at_c h = elim (Option-cases (apply op c)) [
    | inl refused ↦ ground (arith, refused)
    | inr (c₁, done) ↦
        let (t, step, at_t) = server.obeys op s c₁ (ap (apply op) at_c ∙ done) in
        let (u, rest, at_u) = execute_all-run ops t c₁ d at_t (rw done at h) in
        (u, ap (λ r. then_run r (execute_all ops)) step ∙ rest, at_u)
  ]
