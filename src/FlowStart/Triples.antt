-- ===== src/FlowStart/Triples.antt =====
-- Statements on the tables that may raise, in execution_service.py: what holds after one that returns
-- and after one that raises.
use agent_orchestration_core.Common.{Result, ok, err}
use agent_orchestration_core.FlowStart.{Db}
use agent_orchestration_core.FlowStart.Writes.{Act, ◌>=>◌, and_then, given}

abbrev pub After : {A : Type 0} → (A → Db → Type 0) → (Db → Type 0) → Result A × Db → Type 0
After Q E (ok a, db) = Q a db
After Q E (err x, db) = E db

abbrev pub Leads : {A : Type 0} → (Db → Type 0) → Act A → (A → Db → Type 0) → (Db → Type 0) → Type 0
Leads P m Q E = (db : Db) → P db → After Q E (m db)

module _ {A B : Type 0} (Q : A → Db → Type 0) (R : B → Db → Type 0) (E : Db → Type 0)
    (f : A → Act B) where
  and_then-After :
      (t : Result A × Db)
      → After Q E t
      → ((a : A) → Leads (Q a) (f a) R E)
      → After R E (and_then f t)
  and_then-After (ok a, db) h later = later a db h
  and_then-After (err x, db) h later = h

  pub >=>-Leads :
      (P : Db → Type 0) (m : Act A)
      → Leads P m Q E
      → ((a : A) → Leads (Q a) (f a) R E)
      → Leads P (m >=> f) R E
  >=>-Leads P m first later db h = and_then-After (m db) (first db h) later

-- A call leaves what holds.
pub given-Leads :
    {A : Type 0} (P E : Db → Type 0) (result : Result A)
    → ((db : Db) → P db → E db)
    → Leads P (given result) (λ a. P) E
given-Leads P E (ok a) weaker db h = h
given-Leads P E (err x) weaker db h = weaker db h
