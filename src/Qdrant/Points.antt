-- ===== src/Qdrant/Points.antt =====
-- The points of a collection and their payloads, as memory.py and vector_semantics.py write them.
use recall_select.Prelude.{ℕ, Bool, Option, List, [], ◌∷◌, String, ◌==◌, Dict, insert}

-- A declared edge, as it is kept on its source point. `declared_at` and `valid_till` are instants.
pub record Relation (F : Type 0) : Type 0 where
  pub target : String
  pub type : String
  pub layer : String
  pub directed : Bool
  pub weight : F
  pub confidence : F
  pub valid_till : Option ℕ
  pub evidence : Option String
  pub declared_at : ℕ

-- A JSON value: a text, a timestamp, a list of texts, or any other, by what it prints as.
pub data Json : Type 0 where
  note : String → Json
  stamp : ℕ → Json
  texts : List String → Json
  json : String → Json

-- The `_semantics` document: its keys, but for `relations`, which is read as the empty list where it
-- is absent.
pub record Semantics (F : Type 0) : Type 0 where
  pub notes : Dict Json
  pub relations : List (Relation F)

pub data Value (F : Type 0) : Type 0 where
  text : String → Value F
  semantics : Semantics F → Value F
  other : Json → Value F

pub record Point (F : Type 0) : Type 0 where
  pub id : String
  pub vector : List F
  pub payload : Dict (Value F)

pub record Hit (F : Type 0) : Type 0 where
  pub id : String
  pub score : F
  pub payload : Dict (Value F)

-- The points of each collection.
abbrev pub Server : Type 0 → Type 0
Server F = Dict (List (Point F))

module _ {F : Type 0} where
  abbrev pub has_id : String → Point F → Bool
  has_id i p = p.id == i

  -- `{**a, **b}`: a key of `b` replaces the one of `a`.
  abbrev pub merge : Dict (Value F) → Dict (Value F) → Dict (Value F)
  merge a [] = a
  merge a ((k, v) ∷ b) = merge (insert k v a) b

  -- `set_payload` on one point.
  abbrev pub enriched : Dict (Value F) → Point F → Point F
  enriched payload p = record p { payload = merge p.payload payload }
