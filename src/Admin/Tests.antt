-- ===== src/Admin/Tests.antt =====
-- The theorems on the admin area at concrete inputs.
use recall_select.Prelude.{
  ℕ, ◌+◌, ◌-◌, ◌*◌, ◌≤◌, ◌≡◌, refl, Bool, true, false, Option, none, some, List, [], ◌∷◌, String,
  map, count, arith,
}
use recall_select.Mongo.InMemory.{in_memory}
use recall_select.Qdrant.InMemory.{in_memory as qdrant_in_memory}
use recall_select.Qdrant.Points.{Point, Server, Json, text}
use recall_select.Documents.{Project, Database}
use recall_select.Users.{new_user, default_tier}
use recall_select.Projects.{new_project, get_project}
use recall_select.Collections.{collection_name}
use recall_select.Store.{scroll_points, scroll_pages}
use recall_select.Billing.History.{empty_database}
use recall_select.Billing.Tiers.{second}
use recall_select.Sorting.{sort_reverse, insert_descending}
use recall_select.Admin.Gate.{Failures, guarded, is_unlocked, unlock, verify, locked_out}
use recall_select.Admin.Gate.Lockout.{Guess, tested, tested_lem}
use recall_select.Admin.Gate.Sessions.{Event, post, view, run, signed_in, IsOpened, run_lem}
use recall_select.Admin.Memories.{
  MemoryRow, View, memory_row, memory_scan_limit, view_of, all_rows, user_memories,
}
use recall_select.Admin.Memories.Pages.{shown, user_memories_lem}

abbrev any_text : String → Bool
any_text value = true

abbrev env : Option String
env = some "open sesame"

abbrev guess : ℕ → Guess
guess at = record { client = "c1"; candidate = "1234"; at = at; session = signed_in none }

abbrev guesses : List Guess
guesses = guess 1 ∷ guess 2 ∷ guess 3 ∷ guess 4 ∷ guess 5 ∷ guess 6 ∷ []

abbrev no_failures : Failures
no_failures = []

tested_lem_example : (tested any_text env "c1" guesses no_failures - 5) * (299 * second) ≤ 6 - 1
unfolding verify
tested_lem_example =
    tested_lem any_text env "c1" 1 6 guesses no_failures refl
      (refl, (refl, (refl, (refl, (refl, (refl, tt))))))
      (
        (omega arith, omega arith),
        (
          (omega arith, omega arith),
          (
            (omega arith, omega arith),
            (
              (omega arith, omega arith),
              ((omega arith, omega arith), ((omega arith, omega arith), tt)),
            ),
          ),
        ),
      )

abbrev visits : List Event
visits = view 8 ∷ post "c1" "open sesame" 5 ∷ []

run_lem_example :
    ((t : ℕ) × IsOpened env visits t × (9 ≤ t + 3600 * second))
    × ((run any_text env 3600 (some "u1") visits).1.user_id ≡ some "u1")
unfolding guarded is_unlocked unlock verify locked_out
run_lem_example = run_lem any_text env 3600 (some "u1") visits 9 "users" refl

abbrev people : Database
people = record empty_database {
  users = new_user "u1" "ann@mail" none default_tier none 0 ∷ [];
  projects = new_project "p1" "u1" "home" 0 ∷ [];
}

abbrev memory : String → Point ℕ
memory id = record { id = id; vector = []; payload = ("text", text "tea") ∷ [] }

abbrev server : Server ℕ
server = (collection_name "u1" "p1", memory "m1" ∷ memory "m2" ∷ memory "m3" ∷ []) ∷ []

abbrev printed : Json → String
printed j = ""

abbrev never : String → String → Bool
never a b = false

abbrev every : MemoryRow ℕ → Bool
every row = true

abbrev second_page : View ℕ
second_page =
    view_of printed never "u1" "p1" (new_user "u1" "ann@mail" none default_tier none 0)
      (new_project "p1" "u1" "home" 0) 2 2 people server

user_memories_lem_example :
    (count every (shown {F = ℕ} printed never "u1" "p1" 2 people server 2)
      ≡ count every (
          map memory_row
            (scroll_points {F = ℕ} (collection_name "u1" "p1") (some memory_scan_limit) server)))
    × ((project : Project) × (get_project "p1" people ≡ some project) × (project.user_id ≡ "u1"))
unfolding user_memories all_rows sort_reverse insert_descending scroll_points scroll_pages
user_memories_lem_example =
    user_memories_lem printed never "u1" "p1" 2 people server 1 second_page every refl refl
