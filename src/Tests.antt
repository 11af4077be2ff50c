-- ===== src/Tests.antt =====
-- Runs of the services on a driver and a client that keep their documents in memory, and the theorems
-- at concrete inputs.
use recall_select.Prelude.{
  ℕ, ◌≡◌, ◌≤◌, ◌+◌, refl, Bool, not, count, true, false, none, some, Option, List, [], ◌∷◌, String,
  arith,
}
use recall_select.Mongo.InMemory.{in_memory}
use recall_select.Qdrant.InMemory.{in_memory as qdrant_in_memory}
use recall_select.Qdrant.{points_of}
use recall_select.Qdrant.Points.{has_id as is_point, Point, Server, text}
use recall_select.Documents.{User, Project, ApiKey, CollectionRecord, Database, ok}
use recall_select.Users.{new_user, default_tier}
use recall_select.Billing.Plans.{free_calls, call_allowance}
use recall_select.Billing.Tiers.{effective_tier}
use recall_select.Usage.Calendar.{current_period}
use recall_select.Billing.History.{empty_database}
use recall_select.Usage.{calls_this_period, record_call, check_call_allowed}
use recall_select.Usage.Meter.{gated_calls, quota_holds, record_call_adds, record_call_others}
use recall_select.Collections.{register_collection, get_collection, new_collection}
use recall_select.Collections.Registry.{registered_once, collection_name_injective}
use recall_select.Collections.Provisioning.{create_collection}
use recall_select.Collections.Provisioning.Stores.{provisioned_once}
use recall_select.ApiKeys.{Draw, get_by_key, attempt, new_key}
use recall_select.ApiKeys.Minting.{minted_authenticates}
use recall_select.Projects.{new_project}
use recall_select.Store.{scroll_points, capped, ensure_collection}
use recall_select.Store.Pages.{scroll_points_lem}
use recall_select.Memory.{
  store_memory, remove_memory, delete_memory, write_memory, memory_payload, Stored,
}
use recall_select.Memory.Deleting.{nothing_left_of_deleted}
use recall_select.Memory.Storing.{IsKept, store_memory-IsKept}
use recall_select.Api.{
  get_optional_user, get_current_user, require_account_owner, require_own_project,
}
use recall_select.Mongo.Query.{first}
use recall_select.Qdrant.Points.{Relation}
use recall_select.Semantics.Relations.{is_same_edge, updated}
use recall_select.Semantics.Declared.{last_declared_holds, one_edge_per_key}
use recall_select.Workspaces.Provision.{is_link_key}
use recall_select.Api.Ownership.{own_project_only, account_owner_only}

abbrev ann : User
ann = new_user "u1" "ann@mail" none default_tier (some "g1") 0

abbrev ann_session : Option String
ann_session = some "u1"

abbrev home : Project
home = new_project "p1" "u1" "home" 0

abbrev people : Database
people = record empty_database { users = ann ∷ []; projects = home ∷ [] }

abbrev shelf : CollectionRecord
shelf = new_collection "u1" "p1" 5

abbrev shelved : Database
shelved = record people { collections = shelf ∷ [] }

abbrev no_server : Server ℕ
no_server = []

abbrev memory_1 : Point ℕ
memory_1 = record { id = "m1"; vector = 1 ∷ []; payload = ("text", text "tea") ∷ [] }

abbrev memory_2 : Point ℕ
memory_2 = record { id = "m2"; vector = 2 ∷ []; payload = ("text", text "milk") ∷ [] }

abbrev server : Server ℕ
server = (shelf.name, memory_1 ∷ memory_2 ∷ []) ∷ []

abbrev empty_shelf : Server ℕ
empty_shelf = (shelf.name, []) ∷ []

abbrev constant : String → List ℕ
constant content = 7 ∷ []

-- A digest for the tests.
abbrev same_digest : String → String
same_digest token = token

abbrev draws : ℕ → Draw
draws n = record { random = "abcdefghij"; new_id = "k1" }

abbrev minted : ApiKey
minted = new_key same_digest (draws 0) "u1" (some "default") 9

abbrev with_key : Database
with_key = record people { api_keys = minted ∷ [] }

quota_holds_example :
    calls_this_period "u1" (current_period 3) (gated_calls "u1" (1 ∷ 2 ∷ 3 ∷ []) people) ≡ 3
unfolding calls_this_period call_allowance effective_tier current_period
quota_holds_example =
    quota_holds "u1" "free" free_calls (current_period 3) (1 ∷ 2 ∷ 3 ∷ []) people refl
      ((refl, refl), ((refl, refl), ((refl, refl), tt))) (ground arith)

record_call_adds_example :
    let now : ℕ = 3 in
    (calls_this_period "u1"
        (current_period now)
        (record_call "u1" 2 (current_period now) now people).1
      ≡ calls_this_period "u1" (current_period now) people + 2)
    × ((record_call "u1" 2 (current_period now) now people).0
        ≡ calls_this_period "u1" (current_period now) people + 2)
record_call_adds_example = record_call_adds "u1" 2 (current_period 3) 3 people

record_call_others_example :
    calls_this_period "u2" (current_period 3) (record_call "u1" 2 (current_period 3) 3 people).1
    ≡ calls_this_period "u2" (current_period 3) people
record_call_others_example =
    record_call_others "u1" 2 (current_period 3) 3 people "u2" (current_period 3) refl

registered_once_example : register_collection "u1" "p1" 8 shelved ≡ ok (shelf, shelved)
unfolding register_collection
registered_once_example = registered_once "u1" "p1" 5 8 people shelf shelved refl

collection_name_injective_example : (default_tier ≡ "free") × (home.name ≡ "home")
collection_name_injective_example =
    collection_name_injective default_tier "free" home.name "home" refl refl

provisioned_once_example :
    (get_collection "u1" "p1" shelved ≡ some shelf)
    × (qdrant_in_memory.collection_exists shelf.name empty_shelf ≡ true)
    × (create_collection {F = ℕ} "u1" "p1" 8 shelved empty_shelf
        ≡ ok (shelf, (shelved, empty_shelf)))
unfolding create_collection register_collection ensure_collection
provisioned_once_example =
    provisioned_once "u1" "p1" 5 8 people no_server shelf shelved empty_shelf refl

minted_authenticates_example :
    (get_by_key same_digest "rs_abcdefghij" false 20 with_key ≡ (some minted, with_key))
    × (minted.user_id ≡ "u1")
    × (minted.label ≡ some "default")
unfolding attempt
minted_authenticates_example =
    minted_authenticates same_digest "u1" (some "default") 9 people draws minted "rs_abcdefghij"
      with_key 20 refl

scroll_points_lem_example :
    scroll_points shelf.name (some 1) server ≡ capped (some 1) (points_of shelf.name server)
scroll_points_lem_example = scroll_points_lem shelf.name server (some 1)

own_project_only_example : (home.id ≡ "p1") × (home.user_id ≡ ann.id)
unfolding require_own_project
own_project_only_example = own_project_only people "p1" ann home refl

account_owner_only_example : (ann.id ≡ "u1") × (ann_session ≡ some "u1")
unfolding get_current_user require_account_owner get_optional_user
account_owner_only_example = account_owner_only people ann_session "u1" ann refl

abbrev edge : String → String → ℕ → Relation ℕ
edge target type weight = record {
  target = target;
  type = type;
  layer = "declared";
  directed = true;
  weight = weight;
  confidence = 1;
  valid_till = none;
  evidence = none;
  declared_at = 0;
}

last_declared_holds_example :
    first
      (is_same_edge (edge "m2" "part_of" 1))
      (updated (edge "m2" "part_of" 1 ∷ []) (edge "m3" "causes" 1 ∷ edge "m2" "part_of" 5 ∷ []))
    ≡ some (edge "m2" "part_of" 5)
last_declared_holds_example =
    last_declared_holds (edge "m2" "part_of" 1 ∷ []) (edge "m3" "causes" 1 ∷ [])
      (edge "m2" "part_of" 1) (edge "m2" "part_of" 5)

one_edge_per_key_example :
    count
      (is_same_edge (edge "m2" "part_of" 1))
      (updated (edge "m2" "part_of" 1 ∷ []) (edge "m2" "part_of" 5 ∷ []))
    ≤ 1
one_edge_per_key_example =
    one_edge_per_key (edge "m2" "part_of" 1 ∷ []) (edge "m2" "part_of" 5 ∷ [])
      (edge "m2" "part_of" 1)

-- The keys that are not behind ann's link.
abbrev other_keys : ApiKey → Bool
other_keys k = not (is_link_key "u1" k)

abbrev reissued : ApiKey
reissued = new_key same_digest (draws 0) "u1" (some "default") 12

abbrev with_reissued : Database
with_reissued = record people { api_keys = reissued ∷ [] }

abbrev outcome : Stored × (Database × Server ℕ)
outcome =
    write_memory "m9" "u1" "p1" shelf (constant "tea") (memory_payload "u1" "tea" [] 5) 5 shelved
      empty_shelf

store_memory-IsKept_example :
    IsKept constant "m9" "u1" "p1" "tea" [] 5 people no_server outcome.0 outcome.1.0 outcome.1.1
unfolding store_memory create_collection register_collection ensure_collection check_call_allowed
    calls_this_period call_allowance effective_tier
store_memory-IsKept_example =
    store_memory-IsKept constant "m9" "u1" "p1" "tea" [] 5 people no_server outcome.0 outcome.1.0
      outcome.1.1 refl

abbrev removal : Bool × (Database × Server ℕ)
removal = remove_memory "u1" "p1" "m1" shelf 9 shelved server

nothing_left_of_deleted_example : first (is_point "m1") (points_of shelf.name removal.1.1) ≡ none
unfolding delete_memory check_call_allowed calls_this_period call_allowance effective_tier
nothing_left_of_deleted_example =
    nothing_left_of_deleted "u1" "p1" "m1" 9 shelved server shelf removal.0 removal.1.0 removal.1.1
      refl refl
