-- ===== src/Admin/Memories.antt =====
-- The viewer of a project's memories: `user_memories` of app/services/admin.py. What a stored
-- timestamp is as a text, `printed`, and Python's order on texts, `text_below`, are parameters.
pub mod Pages
use recall_select.Prelude.{
  ℕ, zero, suc, ◌+◌, ◌*◌, Bool, not, if◌then◌else◌, Option, none, some, get_or, List, [], ◌∷◌,
  String, ◌==◌, Dict, lookup, dropped, map, take, drop, length, ltb, leb,
}
use recall_select.Mongo.{Driver}
use recall_select.Documents.{User, Project, Database}
use recall_select.Users.{get_user}
use recall_select.Projects.{get_project}
use recall_select.Collections.{collection_name, get_collection}
use recall_select.Qdrant.{Client}
use recall_select.Qdrant.Points.{Json, Value, text, Relation, Point, Server}
use recall_select.Store.{scroll_points}
use recall_select.Semantics.{semantics_key, point_semantics}
use recall_select.Sorting.{sort_reverse}

abbrev pub memory_page_size : ℕ
memory_page_size = 50

abbrev pub memory_scan_limit : ℕ
memory_scan_limit = 2000

-- The offset in a URL, which may be negative.
pub data ℤ : Type 0 where
  pos negsuc : ℕ → ℤ

-- `max(0, offset)`
abbrev pub from_zero : ℤ → ℕ
from_zero (pos n) = n
from_zero (negsuc n) = 0

-- The `_semantics` document is shown without its anchors, in two parts: its notes and its edges.
pub record MemoryRow (F : Type 0) : Type 0 where
  pub id : String
  pub text : Value F
  pub stored_at : Option Json
  pub notes : Dict Json
  pub relations : List (Relation F)
  pub metadata : Dict (Value F)

abbrev pub memory_row : {F : Type 0} → Point F → MemoryRow F
memory_row p =
    let s = point_semantics p in
    let payload = dropped semantics_key p.payload in
    record {
      id = p.id;
      text = get_or (lookup "text" payload) (text "");
      stored_at = lookup "stored_at" s.notes;
      notes = dropped "stored_at" (dropped "owner" s.notes);
      relations = s.relations;
      metadata = dropped "text" payload;
    }

pub record View (F : Type 0) : Type 0 where
  pub user : User
  pub project : Project
  pub collection : String
  pub total : ℕ
  pub scanned : ℕ
  pub is_truncated : Bool
  pub rows : List (MemoryRow F)
  pub offset : ℕ
  pub limit : ℕ
  pub has_prev : Bool
  pub has_next : Bool

module _ {F : Type 0} ⦃mongo : Driver⦄ ⦃qdrant : Client F⦄ (printed : Json → String)
    (text_below : String → String → Bool) where
  -- Newest first; a memory without a timestamp is last.
  abbrev pub stored_key : MemoryRow F → String
  stored_key row = elim row.stored_at [ none ↦ "" | some at ↦ printed at ]

  unfoldable pub all_rows : (user_id project_id : String) → Server F → List (MemoryRow F)
  all_rows user_id project_id q = sort_reverse text_below stored_key (
      map memory_row
        (scroll_points (collection_name user_id project_id) (some memory_scan_limit) q))

  abbrev pub view_of :
      (user_id project_id : String)
      → User
      → Project
      → (offset limit : ℕ) → Database
      → Server F
      → View F
  view_of user_id project_id user project offset limit db q =
      let rows = all_rows user_id project_id q in
      record {
        user = user;
        project = project;
        collection = collection_name user_id project_id;
        total = elim (get_collection user_id project_id db) [
          | none ↦ length rows
          | some c ↦ c.points_count
        ];
        scanned = length rows;
        is_truncated = leb memory_scan_limit (length rows);
        rows = take limit (drop offset rows);
        offset = offset;
        limit = limit;
        has_prev = ltb 0 offset;
        has_next = ltb (offset + limit) (length rows);
      }

  unfoldable pub user_memories :
      (user_id project_id : String) (offset : ℤ) (limit : ℕ) → Database → Server F → Option (View F)
  user_memories user_id project_id offset limit db q = elim (get_user user_id db) [
    | none ↦ none
    | some user ↦ elim (get_project project_id db) [
      | none ↦ none
      | some project ↦
          if not (project.user_id == user_id)
          then none
          else some (view_of user_id project_id user project (from_zero offset) limit db q)
    ]
  ]
