-- ===== src/Admin/Pages.antt =====
-- The pages of the admin area: the routes of app/api/admin.py behind the gate. The store of the
-- memories does not fail here, so the page that says that it cannot be reached is left out.
use recall_select.Prelude.{ℕ, Bool, Option, none, some, String, List, get_or}
use recall_select.Mongo.{Driver}
use recall_select.Documents.{Database}
use recall_select.Qdrant.{Client}
use recall_select.Qdrant.Points.{Json, Server}
use recall_select.Semantics.Numbers.{Numbers}
use recall_select.Admin.{
  UserRow, PaymentRow, UserSpace, list_users, list_payments, user_count, user_space,
}
use recall_select.Admin.Gate.{Reply, page, not_found, Session, guarded}
use recall_select.Admin.Memories.{ℤ, View, user_memories, memory_page_size}

pub record UsersPage : Type 0 where
  pub rows : List UserRow
  pub query : String
  pub total : ℕ

-- A page of what is there, or a 404.
abbrev pub found_page : {A : Type 0} → Option A → Reply A
found_page none = not_found
found_page (some a) = page a

module _ ⦃mongo : Driver⦄ (env : Option String) (ttl : ℕ) (now : ℕ) (s : Session)
    (db : Database) where
  abbrev pub users_page :
      (strip : String → String) (matches : String → String → Bool) (q : Option String)
      → Reply UsersPage × Session
  users_page strip matches q = guarded env ttl now s (
      page (record {
        rows = list_users strip matches q 50 now db;
        query = get_or q "";
        total = user_count db;
      }))

  abbrev pub payments_page :
      {F : Type 0} ⦃numbers : Numbers F⦄ → Reply (List (PaymentRow F)) × Session
  payments_page = guarded env ttl now s (page (list_payments 100 db))

  abbrev pub user_page : (user_id : String) → Reply UserSpace × Session
  user_page user_id = guarded env ttl now s (found_page (user_space user_id now db))

  abbrev pub user_memories_page :
      {F : Type 0} ⦃qdrant : Client F⦄ (printed : Json → String)
      (text_below : String → String → Bool) (user_id project_id : String) (offset : ℤ)
      → Server F
      → Reply (View F) × Session
  user_memories_page printed text_below user_id project_id offset q = guarded env ttl now s (
      found_page (user_memories printed text_below user_id project_id offset memory_page_size db q))
