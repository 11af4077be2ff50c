-- ===== src/Documents.antt =====
-- The documents of each MongoDB collection, as the services write them, the unique indexes of
-- app/services/mongo.py, and timestamps.
use recall_select.Prelude.{ℕ, Bool, false, ◌&&◌, ◌||◌, Option, none, some, List, String, ◌==◌, eqb}

-- A datetime, in microseconds since the epoch, with or without a timezone. pymongo hands back naive
-- ones; all that the services write is aware, in UTC.
pub data DateTime : Type 0 where
  naive aware : ℕ → DateTime

-- `_as_aware` of billing.py, on a value that is there: a naive value is read as UTC.
abbrev pub instant : DateTime → ℕ
instant (naive t) = t
instant (aware t) = t

pub record User : Type 0 where
  pub id : String
  pub email : String
  pub name : Option String
  pub tier : String
  pub google_sub : Option String
  pub tier_expires_at : Option DateTime
  pub lapsed_tier : Option String
  pub tier_lapsed_at : Option DateTime
  pub created_at : DateTime
  pub updated_at : DateTime

pub record Payment : Type 0 where
  pub id : String
  pub user_id : String
  pub plan : String
  pub tier : String
  pub amount : ℕ
  pub ccy : String
  pub status : String
  pub paid_at : Option DateTime
  pub created_at : DateTime
  pub updated_at : DateTime

-- A row of `tier_grants`.
pub record TierGrant : Type 0 where
  pub user_id : String
  pub tier : String
  pub days : Option ℕ
  pub expires_at : Option DateTime
  pub previous_tier : String
  pub reason : String
  pub source : String
  pub granted_at : DateTime

-- The calendar month that `strftime("%Y-%m")` prints.
pub record Period : Type 0 where
  pub year : ℕ
  pub month : ℕ

pub record UsageRow : Type 0 where
  pub user_id : String
  pub period : Period
  pub calls : ℕ
  pub created_at : DateTime
  pub updated_at : DateTime

pub record CollectionRecord : Type 0 where
  pub id : String
  pub name : String
  pub user_id : String
  pub project_id : String
  pub points_count : ℕ
  pub calls_count : ℕ
  pub created_at : DateTime
  pub updated_at : DateTime

pub record Project : Type 0 where
  pub id : String
  pub user_id : String
  pub name : String
  pub is_default : Bool
  pub created_at : DateTime
  pub updated_at : DateTime

pub record ApiKey : Type 0 where
  pub id : String
  pub user_id : String
  pub key_hash : String
  pub key_prefix : String
  pub key_last4 : Option String
  pub label : Option String
  pub created_at : DateTime
  pub last_used_at : Option DateTime

-- The database: the documents of each collection.
pub record Database : Type 0 where
  pub users : List User
  pub payments : List Payment
  pub tier_grants : List TierGrant
  pub usage : List UsageRow
  pub collections : List CollectionRecord
  pub projects : List Project
  pub api_keys : List ApiKey

-- An error that a service raises.
pub data Error : Type 0 where
  duplicate_key : Error
  quota_exceeded : String → String → ℕ → Period → Error
  runtime_error value_error attribute_error : Error
  -- Raised by the client of Qdrant.
  unexpected_response : Error

pub data Result {ℓ} (A : Type ℓ) : Type ℓ where
  ok : A → Result A
  err : Error → Result A

abbrev pub same_period : Period → Period → Bool
same_period p q = eqb p.year q.year && eqb p.month q.month

-- Two optional texts that are both there and equal.
abbrev pub same_text : Option String → Option String → Bool
same_text (some a) (some b) = a == b
same_text _ _ = false

-- Whether an optional text is the one wanted.
abbrev pub is_text : String → Option String → Bool
is_text a none = false
is_text a (some b) = b == a

-- `ensure_indexes`: every collection is unique by `_id`, and some by other fields.
abbrev pub users_index : User → User → Bool
users_index a b = a.id == b.id || a.email == b.email || same_text a.google_sub b.google_sub

abbrev pub payments_index : Payment → Payment → Bool
payments_index a b = a.id == b.id

-- The `_id` of a grant is generated by the database.
abbrev pub tier_grants_index : TierGrant → TierGrant → Bool
tier_grants_index a b = false

abbrev pub usage_index : UsageRow → UsageRow → Bool
usage_index a b = a.user_id == b.user_id && same_period a.period b.period

abbrev pub collections_index : CollectionRecord → CollectionRecord → Bool
collections_index a b = a.id == b.id || (a.user_id == b.user_id && a.project_id == b.project_id)

abbrev pub projects_index : Project → Project → Bool
projects_index a b = a.id == b.id

abbrev pub api_keys_index : ApiKey → ApiKey → Bool
api_keys_index a b = a.id == b.id || a.key_hash == b.key_hash
