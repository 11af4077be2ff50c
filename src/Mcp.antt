-- ===== src/Mcp.antt =====
-- app/mcp_server.py: the tools that an agent calls over MCP, and the gate of the endpoint. A request
-- is the key of its path and its `Authorization` header, split at the first blank.
use recall_select.Prelude.{
  ℕ, Bool, true, false, ◌&&◌, not, Option, none, some, List, [], ◌∷◌, String, ◌==◌, if◌then◌else◌,
  Dict,
}
use recall_select.Mongo.{Driver}
use recall_select.Documents.{ApiKey, Database, Result, ok, err, value_error}
use recall_select.Usage.{check_call_allowed}
use recall_select.ApiKeys.{get_by_key}
use recall_select.Workspaces.{ensure_default_project}
use recall_select.Qdrant.{Client}
use recall_select.Qdrant.Points.{Relation, Json, Hit, Server}
use recall_select.Memory.{Stored, metered}
use recall_select.Memory
use recall_select.Semantics.{relations_of, related_memories, default_max_points}
use recall_select.Semantics
use recall_select.Semantics.Numbers.{Numbers}
use recall_select.Semantics.Graph.{default_params}
use recall_select.Semantics.Activation.{Found, spreading_activation}
use recall_select.Semantics.Relations.{
  Candidate, Selector, Reason, upsert_relations, remove_relations,
}

pub record Request : Type 0 where
  pub path_key : Option String
  pub scheme : String
  pub token : String

-- `lower` and `strip` are the methods of `str`.
unfoldable pub extract_key : (lower strip : String → String) → Request → Option String
extract_key lower strip request =
    let header =
      if lower request.scheme == "bearer" && not (request.token == "")
      then some (strip request.token)
      else none in
    elim request.path_key [ none ↦ header | some key ↦ if key == "" then header else some key ]

-- Where an endpoint's request goes.
pub data Answer : Type 0 where
  unknown_link not_running handled : Answer

module _ ⦃mongo : Driver⦄ (hash : String → String) where
  -- An empty key counts as none.
  abbrev pub key_of : Option String → (record_use : Bool) → ℕ → Database → Option ApiKey × Database
  key_of none record_use now db = (none, db)
  key_of (some key) record_use now db =
      if key == "" then (none, db) else get_by_key hash key record_use now db

  -- The user and the project of a request, and the database.
  unfoldable pub workspace_from_context :
      (key : Option String) (new_id : String) → ℕ → Database → Result ((String × String) × Database)
  workspace_from_context key new_id now db = elim (key_of key false now db).0 [
    | none ↦ err value_error
    | some k ↦ elim (ensure_default_project new_id k.user_id now db) [
      | err e ↦ err e
      | ok (p, db') ↦ ok ((k.user_id, p.id), db')
    ]
  ]

  -- The gate stamps the key's `last_used_at`.
  unfoldable pub endpoint :
      (running : Bool) (key : Option String) → ℕ → Database → Answer × Database
  endpoint running key now db =
      let (found, db') = key_of key true now db in
      elim found [
        | none ↦ (unknown_link, db')
        | some k ↦ ((if running then handled else not_running), db')
      ]

-- What a tool returns, and the stores after it; a tool that raises leaves what it has written.
abbrev pub Outcome : Type 0 → Type 0 → Type 0
Outcome F A = Result A × (Database × Server F)

module _ {F : Type 0} {A : Type 0} ⦃mongo : Driver⦄ (hash : String → String) where
  -- A tool on the workspace of its request.
  abbrev pub in_workspace :
      (key : Option String) (new_id : String)
      → ℕ
      → Database
      → Server F
      → (String → String → Database → Outcome F A)
      → Outcome F A
  in_workspace key new_id now db q tool = elim (workspace_from_context hash key new_id now db) [
    | err e ↦ (err e, (db, q))
    | ok ((user_id, project_id), db') ↦ tool user_id project_id db'
  ]

module _ ⦃mongo : Driver⦄ where
  abbrev pub record_usage : (user_id project_id : String) → ℕ → Database → Database
  record_usage user_id project_id now db = metered user_id project_id now db

module _ {F : Type 0} {A : Type 0} ⦃mongo : Driver⦄ where
  -- The semantic tools: the budget is checked, the work is done, and the call is counted.
  unfoldable pub budgeted :
      ℕ
      → Server F
      → (String → String → Database → Result (A × Server F))
      → (user_id project_id : String) → Database
      → Outcome F A
  budgeted now q work user_id project_id db = elim (check_call_allowed user_id now db) [
    | err e ↦ (err e, (db, q))
    | ok _ ↦ elim (work user_id project_id db) [
      | err e ↦ (err e, (db, q))
      | ok (a, q') ↦ (ok a, (record_usage user_id project_id now db, q'))
    ]
  ]

  -- The tools of memory.py count the call themselves.
  abbrev pub delegated : Server F → Database → Result (A × (Database × Server F)) → Outcome F A
  delegated q db (err e) = (err e, (db, q))
  delegated q db (ok (a, stores)) = (ok a, stores)

module _ {F : Type 0} ⦃mongo : Driver⦄ ⦃qdrant : Client F⦄ (hash : String → String)
    (key : Option String) (new_id : String) (now : ℕ) (db : Database) (q : Server F) where
  unfoldable pub store_memory :
      (embed : String → List F) (point_id content : String) → Dict Json → Outcome F Stored
  store_memory embed point_id content metadata =
      in_workspace hash key new_id now db q (λ user_id project_id db'.
        delegated q db'
          (Memory.store_memory embed point_id user_id project_id content metadata now db' q))

  unfoldable pub delete_memory : (memory_id : String) → Outcome F Bool
  delete_memory memory_id = in_workspace hash key new_id now db q (λ user_id project_id db'.
      delegated q db' (Memory.delete_memory user_id project_id memory_id now db' q))

  unfoldable pub recall_memory :
      (embed : String → List F) (query : String) → ℕ → Outcome F (List (Hit F))
  recall_memory embed query limit = in_workspace hash key new_id now db q (λ user_id project_id db'.
      elim (Memory.recall_memory embed user_id project_id query limit now db' q) [
        | err e ↦ (err e, (db', q))
        | ok (hits, db'') ↦ (ok hits, (db'', q))
      ])

  unfoldable pub link_memories :
      (one : F) (in_range : F → Bool)
      → List (Candidate F)
      → Outcome F (ℕ × List (Candidate F × Reason))
  link_memories one in_range relations = in_workspace hash key new_id now db q (
      budgeted now q (λ user_id project_id db'.
        ok (upsert_relations one in_range user_id project_id relations now db' q)))

  unfoldable pub unlink_memories : List Selector → Outcome F (ℕ × List (Selector × Reason))
  unlink_memories selectors = in_workspace hash key new_id now db q (
      budgeted now q
        (λ user_id project_id db'. ok (remove_relations user_id project_id selectors db' q)))

  unfoldable pub annotate_memory : (memory_id : String) → Dict Json → Outcome F Bool
  annotate_memory memory_id annotations = in_workspace hash key new_id now db q (
      budgeted now q (λ user_id project_id db'.
        Semantics.annotate_memory user_id project_id memory_id annotations db' q))

  -- What is near a memory, and the edges at it, both ways.
  unfoldable pub memory_connections :
      (below : F → F → Bool) (default_link_threshold : F) (memory_id : String)
      → ℕ
      → Outcome F (List (Hit F) × List (String × Relation F))
  memory_connections below default_link_threshold memory_id limit =
      in_workspace hash key new_id now db q (
        budgeted now q (λ user_id project_id db'.
          elim (related_memories below user_id project_id memory_id limit default_link_threshold db'
            q) [
              | err e ↦ err e
              | ok similar ↦ ok (
                (
                  similar,
                  relations_of user_id project_id memory_id none true false default_max_points now
                      db' q,
                ),
                q,
              )
            ]))

-- `tuple(layers) if layers else ("topical",)`
abbrev pub chosen_lenses : Option (List String) → List String
chosen_lenses (some (l ∷ ls)) = l ∷ ls
chosen_lenses (some []) = "topical" ∷ []
chosen_lenses none = "topical" ∷ []

module _ {F : Type 0} ⦃mongo : Driver⦄ ⦃qdrant : Client F⦄ ⦃numbers : Numbers F⦄
    (hash : String → String) where
  -- The walk over the graph, with the defaults of its keyword arguments.
  unfoldable pub recall_connected :
      (read_ts : String → Option ℕ) (normal : String → String) (embed : String → List F)
      (key : Option String) (new_id seed : String) (hops limit : ℕ) (layers : Option (List String))
      → ℕ
      → Database
      → Server F
      → Outcome F (Found F)
  recall_connected read_ts normal embed key new_id seed hops limit layers now db q =
      in_workspace hash key new_id now db q (
        budgeted now q (λ user_id project_id db'.
          elim (spreading_activation read_ts normal user_id project_id seed (chosen_lenses layers)
            default_params [] hops limit 5 (numbers.ratio 6 10) (numbers.ratio 5 10)
            default_max_points embed now db' q) [ err e ↦ err e | ok found ↦ ok (found, q) ]))
