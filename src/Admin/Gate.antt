-- ===== src/Admin/Gate.antt =====
-- The gate of the owner's admin area (app/api/admin.py, and the secret in app/services/admin.py): the
-- unlocked session and the brake on guesses. The clock, in microseconds, is read once in a request.
-- The secret of the environment, the length of a session and the test for ASCII are parameters.
pub mod Lockout
pub mod Sessions
use recall_select.Prelude.{
  ℕ, ◌+◌, ◌-◌, ◌*◌, ◌/◌, Bool, true, false, not, ◌&&◌, ◌||◌, if◌then◌else◌, Option, none, some,
  is_some, get_or, String, ◌==◌, Dict, lookup, insert, dropped, ltb, leb, eqb,
}
use recall_select.Billing.Tiers.{second}

abbrev pub secret : (env : Option String) → Option String
secret none = none
secret (some value) = if value == "" then none else some value

abbrev pub is_enabled : (env : Option String) → Bool
is_enabled env = is_some (secret env)

-- `secrets.compare_digest` raises a TypeError on texts that are not ASCII: none.
unfoldable pub verify :
    (is_ascii : String → Bool) (env : Option String) (candidate : String) → Option Bool
verify is_ascii env candidate = elim (secret env) [
  | none ↦ some false
  | some configured ↦
      if candidate == ""
      then some false
      else if is_ascii candidate && is_ascii configured
      then some (candidate == configured)
      else none
]

abbrev pub session_expired : (ttl : ℕ) → (unlocked_at : Option ℕ) → ℕ → Bool
session_expired ttl none now = true
session_expired ttl (some at) now = eqb at 0 || ltb (ttl * second) (now - at)

-- The keys of a session: the admin's two, and the user that is signed in.
pub record Session : Type 0 where
  pub admin_unlocked : Bool
  pub admin_unlocked_at : Option ℕ
  pub user_id : Option String

abbrev pub lock_session : Session → Session
lock_session s = record s { admin_unlocked = false; admin_unlocked_at = none }

unfoldable pub is_unlocked : (ttl : ℕ) → ℕ → Session → Bool × Session
is_unlocked ttl now s =
    if not s.admin_unlocked
    then (false, s)
    else if session_expired ttl s.admin_unlocked_at now
    then (false, lock_session s)
    else (true, s)

abbrev pub lockout_after : ℕ
lockout_after = 5

abbrev pub lockout_seconds : ℕ
lockout_seconds = 300

-- The failures of each client, and until when it waits.
abbrev pub Failures : Type 0
Failures = Dict (ℕ × ℕ)

abbrev pub failures_of : (client : String) → Failures → ℕ × ℕ
failures_of client failures = get_or (lookup client failures) (0, 0)

-- Whole seconds.
unfoldable pub locked_out : (client : String) → ℕ → Failures → ℕ
locked_out client now failures =
    let (count, until) = failures_of client failures in
    if leb lockout_after count && ltb now until then (until - now) / second else 0

unfoldable pub record_failure : (client : String) → ℕ → Failures → Failures
record_failure client now failures =
    insert client ((failures_of client failures).0 + 1, now + lockout_seconds * second) failures

-- What a request gets: a 404, a redirection, the unlock page with its status and the seconds to
-- wait, a page of the area, or the 500 of an uncaught error.
pub data Reply (A : Type 0) : Type 0 where
  not_found server_error : Reply A
  redirect : String → Reply A
  unlock_page : (status wait : ℕ) → Reply A
  page : A → Reply A

module _ {A : Type 0} (env : Option String) (ttl : ℕ) where
  unfoldable pub unlock_form : (client : String) → ℕ → Failures → Session → Reply A × Session
  unlock_form client now failures s =
      let (unlocked, s') = is_unlocked ttl now s in
      if not (is_enabled env)
      then (not_found, s)
      else if unlocked
      then (redirect "/admin/users", s')
      else (unlock_page 200 (locked_out client now failures), s')

  -- A page of the area, which is made only for an unlocked session.
  unfoldable pub guarded : ℕ → Session → Reply A → Reply A × Session
  guarded now s content =
      let (unlocked, s') = is_unlocked ttl now s in
      if not (is_enabled env)
      then (not_found, s)
      else if unlocked
      then (content, s')
      else (redirect "/admin", s')

module _ {A : Type 0} (env : Option String) where
  unfoldable pub lock : Session → Reply A × Session
  lock s = if not (is_enabled env) then (not_found, s) else (redirect "/admin", lock_session s)

module _ {A : Type 0} (is_ascii : String → Bool) (env : Option String) where
  -- An answer, the failures and the session.
  unfoldable pub unlock :
      (client candidate : String) → ℕ → Failures → Session → Reply A × (Failures × Session)
  unlock client candidate now failures s =
      let wait = locked_out client now failures in
      let failures' = record_failure client now failures in
      if not (is_enabled env)
      then (not_found, (failures, s))
      else if not (eqb wait 0)
      then (unlock_page 429 wait, (failures, s))
      else elim (verify is_ascii env candidate) [
        | none ↦ (server_error, (failures, s))
        | some false ↦ (unlock_page 401 (locked_out client now failures'), (failures', s))
        | some true ↦ (
          redirect "/admin/users",
          (
            dropped client failures,
            record s { admin_unlocked = true; admin_unlocked_at = some now },
          ),
        )
      ]
