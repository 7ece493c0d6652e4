-- ===== src/Subgraph/Every.antt =====
-- Predicates that hold of every entity in a table of packages/subgraph.
use repayd.Common.{String, Bool, true, false, Option, none, some, if◌then◌else◌, str_eq}
use repayd.Subgraph.Graph.{Graph}

abbrev pub Sat : {V : Type 0} → (V → Type 0) → Option V → Type 0
Sat P none = Unit
Sat P (some v) = P v

module _ ⦃g : Graph⦄ where
  open g use {Table, load, save, load-save, no_entities, load-no_entities}

  abbrev pub Every : {V : Type 0} → (V → Type 0) → Table V → Type 0
  Every P t = (id : String) → Sat P (load t id)

  pub Every-no_entities : {V : Type 0} (P : V → Type 0) → Every P (no_entities {V = V})
  Every-no_entities P id = rw (load-no_entities id) tt

  pub Every-save :
      {V : Type 0} (P : V → Type 0) (t : Table V) (id : String) (v : V)
      → Every P t
      → P v
      → Every P (save t id v)
  Every-save P t id v all h other =
      rw (load-save t id other v) (split (str_eq id other) (all other))
    where
      split : (b : Bool) → Sat P (load t other) → Sat P (if b then some v else load t other)
      split true k = h
      split false k = k
