-- ===== src/Subgraph/Graph.antt =====
-- What packages/subgraph/src/mapping.ts uses of graph-ts and of the generated entity classes: the
-- entity store, with load and save by id, and the texts of byte strings and numbers.
use repayd.Common.{ℕ, String, ◌≡◌, Option, none, some, List, if◌then◌else◌, str_eq}

-- A Bytes value is a sequence of bytes.
abbrev pub Bytes : Type 0
Bytes = List ℕ

-- Saving an entity replaces the one of its id, in all its fields: every field of an entity that was
-- loaded is set. The store merges a new entity into one that is there, so that a field the source leaves
-- unset in it is written out as `kept_field`.
pub record Graph : Type 1 where
  pub Table : Type 0 → Type 0
  pub load : {V : Type 0} → Table V → String → Option V
  pub save : {V : Type 0} → Table V → String → V → Table V
  pub no_entities : {V : Type 0} → Table V
  pub load-save :
      {V : Type 0} (t : Table V) (id other : String) (v : V)
      → load (save t id v) other ≡ (if str_eq id other then some v else load t other)
  pub load-no_entities : {V : Type 0} (id : String) → load (no_entities {V = V}) id ≡ none
  pub to_hex_string : Bytes → String
  pub to_string : ℕ → String
  pub concat_i32 : Bytes → ℕ → Bytes
  pub concat : String → String → String

-- a field of the entity that is stored, if one is
abbrev pub kept_field : {V A : Type 0} → (V → Option A) → Option V → Option A
kept_field field none = none
kept_field field (some v) = field v
