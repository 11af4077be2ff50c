-- ===== src/ApiKeys.antt =====
-- app/services/api_keys.py. The digest is a parameter, and so are the random part of each fresh token
-- and the identifier of its document.
pub mod Minting
use recall_select.Prelude.{
  ℕ, zero, suc, ◌+◌, ◌-◌, ◌&&◌, Bool, true, false, if◌then◌else◌, Option, none, some, List, String,
  ◌==◌, is_some, ltb,
}
use Prim.Native.String.{◌++◌, slice, len}
use recall_select.Mongo.{
  Driver, find, find_one, sort_descending, insert_one, find_one_and_update, delete_one, delete_many,
}
use recall_select.Documents.{
  ApiKey, Database, aware, instant, Result, ok, err, runtime_error, api_keys_index, is_text,
}

abbrev pub key_prefix : String
key_prefix = "rs_"

abbrev pub preview_len : ℕ
preview_len = len key_prefix + 4

abbrev pub last_len : ℕ
last_len = 4

abbrev pub max_key_attempts : ℕ
max_key_attempts = 3

-- What the generators return on one attempt.
pub record Draw : Type 0 where
  pub random : String
  pub new_id : String

abbrev pub generate_key : Draw → String
generate_key draw = key_prefix ++ draw.random

-- An empty `key_last4` counts as absent.
abbrev pub masked : ApiKey → String
masked k = elim k.key_last4 [
  | none ↦ k.key_prefix ++ "…"
  | some last4 ↦ if last4 == "" then k.key_prefix ++ "…" else k.key_prefix ++ ("…" ++ last4)
]

-- The filters of the queries.
abbrev pub has_id : String → ApiKey → Bool
has_id key_id k = k.id == key_id

abbrev pub has_hash : String → ApiKey → Bool
has_hash digest k = k.key_hash == digest

abbrev pub is_owned : String → ApiKey → Bool
is_owned user_id k = k.user_id == user_id

-- With `label=None`, every key of the user.
abbrev pub is_labeled : String → Option String → ApiKey → Bool
is_labeled user_id none k = k.user_id == user_id
is_labeled user_id (some label) k = k.user_id == user_id && is_text label k.label

abbrev pub used : ℕ → ApiKey → ApiKey
used now k = record k { last_used_at = some (aware now) }

-- `hash_key`, the digest, is `hash`. A token is ASCII, so its bytes are its characters.
module _ (hash : String → String) where
  abbrev pub new_key : Draw → (user_id : String) → Option String → ℕ → ApiKey
  new_key draw user_id label now =
      let token = generate_key draw in
      record {
        id = draw.new_id;
        user_id = user_id;
        key_hash = hash token;
        key_prefix = slice token 0 preview_len;
        key_last4 = some (slice token (len token - last_len) (len token));
        label = label;
        created_at = aware now;
        last_used_at = none;
      }

module _ ⦃mongo : Driver⦄ where
  abbrev pub get_api_key : String → Database → Option ApiKey
  get_api_key key_id db = find_one (has_id key_id) db.api_keys

  abbrev pub delete_api_key : String → Database → Bool × Database
  delete_api_key key_id db =
      let (deleted, keys) = delete_one (has_id key_id) db.api_keys in
      (ltb 0 deleted, record db { api_keys = keys })

  abbrev pub delete_user_keys : String → Option String → Database → ℕ × Database
  delete_user_keys user_id label db =
      let (deleted, keys) = delete_many (is_labeled user_id label) db.api_keys in
      (deleted, record db { api_keys = keys })

  unfoldable pub list_api_keys : String → Database → List ApiKey
  list_api_keys user_id db =
      sort_descending (λ k. instant k.created_at) (find (is_owned user_id) db.api_keys)

  abbrev pub get_labeled_key : (user_id label : String) → Database → Option ApiKey
  get_labeled_key user_id label db = find_one (is_labeled user_id (some label)) db.api_keys

module _ ⦃mongo : Driver⦄ (hash : String → String) where
  -- The attempts that are left, each with what its `draws` gives: the stored key with its plaintext,
  -- and the database.
  unfoldable pub attempt :
      (fuel : ℕ) (draws : ℕ → Draw) (user_id : String) (label : Option String) (now : ℕ)
      → Database
      → Result ((ApiKey × String) × Database)
  attempt zero draws user_id label now db = err runtime_error
  attempt (suc fuel) draws user_id label now db =
      let rest = attempt fuel (λ i. draws (suc i)) user_id label now db in
      let k : ApiKey = new_key hash (draws 0) user_id label now in
      elim (insert_one api_keys_index k db.api_keys) [
        | some keys ↦ ok ((k, generate_key (draws 0)), record db { api_keys = keys })
        | none ↦
            if is_some (find_one (has_hash k.key_hash) db.api_keys) then rest else err runtime_error
      ]

  abbrev pub add_api_key :
      (draws : ℕ → Draw) (user_id : String) (label : Option String) (now : ℕ)
      → Database
      → Result ((ApiKey × String) × Database)
  add_api_key draws user_id label now db = attempt max_key_attempts draws user_id label now db

  unfoldable pub get_by_key :
      (key : String) (record_use : Bool) (now : ℕ) → Database → Option ApiKey × Database
  get_by_key key record_use now db = elim (find_one (has_hash (hash key)) db.api_keys) [
    | none ↦ (none, db)
    | some k ↦
        if record_use
        then (
          some (used now k),
          record db { api_keys = (find_one_and_update (has_id k.id) (used now) db.api_keys).1 },
        )
        else (some k, db)
  ]
