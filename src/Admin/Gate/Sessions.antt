-- ===== src/Admin/Gate/Sessions.antt =====
-- How a session of the admin area is opened, and how long it lasts. A history of requests has the
-- last one first.
use mathlib.Core.Path.{subst}
use recall_select.Prelude.{
  ℕ, ◌+◌, ◌*◌, ◌≤◌, ◌≡◌, ◌⊎◌, refl, sym, ap, Bool, true, false, Option, none, some, is_some, List,
  [], ◌∷◌, String, eqb, Bool-cases, Option-cases, inl, inr, arith, eq_iff,
}
use recall_select.Billing.Tiers.{second}
use recall_select.Admin.Gate.{
  Reply, page, Session, Failures, locked_out, verify, unlock, unlock_form, guarded, lock,
  lock_session, is_enabled, is_unlocked, secret, session_expired,
}

-- A post of the unlock form, a look at the form or at a page, the locking of the area, and a post from
-- another session.
pub data Event : Type 0 where
  post : (client candidate : String) → (at : ℕ) → Event
  form : (client : String) → (at : ℕ) → Event
  view : (at : ℕ) → Event
  leave : Event
  elsewhere : (client candidate : String) → (at : ℕ) → Session → Event

abbrev pub signed_in : Option String → Session
signed_in user_id = record { admin_unlocked = false; admin_unlocked_at = none; user_id = user_id }

module _ (is_ascii : String → Bool) (env : Option String) (ttl : ℕ) where
  abbrev pub step : Event → Failures × Session → Failures × Session
  step (post client candidate at) (failures, s) =
      (unlock {A = String} is_ascii env client candidate at failures s).1
  step (form client at) (failures, s) =
      (failures, (unlock_form {A = String} env ttl client at failures s).1)
  step (view at) (failures, s) = (failures, (guarded {A = String} env ttl at s (page "content")).1)
  step leave (failures, s) = (failures, (lock {A = String} env s).1)
  step (elsewhere client candidate at other) (failures, s) =
      ((unlock {A = String} is_ascii env client candidate at failures other).1.0, s)

  -- The failures and the session after a history that starts with a locked session.
  abbrev pub run : (user_id : Option String) → List Event → Failures × Session
  run user_id [] = ([], signed_in user_id)
  run user_id (e ∷ es) = step e (run user_id es)

abbrev pub is_leave : Event → Bool
is_leave leave = true
is_leave _ = false

-- The secret was posted at a time, and the area was not locked since.
pub data IsOpened (env : Option String) : List Event → ℕ → Type 0 where
  by_secret :
      (client candidate : String) (at : ℕ) (es : List Event)
      → secret env ≡ some candidate
      → IsOpened env (post client candidate at ∷ es) at
  since :
      (e : Event) (es : List Event) (t : ℕ)
      → is_leave e ≡ false
      → IsOpened env es t
      → IsOpened env (e ∷ es) t

module _ (is_ascii : String → Bool) (env : Option String) where
  -- A right guess is the secret.
  verify-secret :
      (candidate : String) → verify is_ascii env candidate ≡ some true → secret env ≡ some candidate
  unfolding verify
  verify-secret candidate h = elim (Option-cases (secret env)) [
    | inl e ↦ ground (arith, h, e)
    | inr (configured, e) ↦ ground (arith, h, e, eq_iff candidate configured)
  ]

  session-unlock :
      (client candidate : String) (at : ℕ) (failures : Failures) (s : Session)
      → let s' = (unlock {A = String} is_ascii env client candidate at failures s).1.1 in
        (s' ≡ s)
        ⊎ ((s' ≡ record s { admin_unlocked = true; admin_unlocked_at = some at })
            × (secret env ≡ some candidate))
  unfolding unlock
  session-unlock client candidate at failures s = elim (Bool-cases (is_enabled env)) [
    | inr e ↦ inl (rw (e, unlock) refl)
    | inl e ↦ elim (Bool-cases (eqb (locked_out client at failures) 0)) [
      | inr w ↦ inl (rw (e, w, unlock) refl)
      | inl w ↦ elim (Option-cases (verify is_ascii env candidate)) [
        | inl v ↦ inl (rw (e, w, v, unlock) refl)
        | inr (false, v) ↦ inl (rw (e, w, v, unlock) refl)
        | inr (true, v) ↦ inr (rw (e, w, v, unlock) refl, verify-secret candidate v)
      ]
    ]
  ]

module _ (env : Option String) where
  session-lock :
      (s : Session) → is_enabled env ≡ true → (lock {A = String} env s).1 ≡ lock_session s
  unfolding lock
  session-lock s e = rw (e, lock) refl

  session-lock_off : (s : Session) → is_enabled env ≡ false → (lock {A = String} env s).1 ≡ s
  unfolding lock
  session-lock_off s e = rw (e, lock) refl

module _ (env : Option String) (ttl : ℕ) where
  session-is_unlocked :
      (now : ℕ) (s : Session)
      → ((is_unlocked ttl now s).1 ≡ s) ⊎ ((is_unlocked ttl now s).1 ≡ lock_session s)
  unfolding is_unlocked
  session-is_unlocked now s = elim (Bool-cases s.admin_unlocked) [
    | inr u ↦ inl (rw (u, is_unlocked) refl)
    | inl u ↦ elim (Bool-cases (session_expired ttl s.admin_unlocked_at now)) [
      | inl x ↦ inr (rw (u, x, is_unlocked) refl)
      | inr x ↦ inl (rw (u, x, is_unlocked) refl)
    ]
  ]

  session-guarded :
      {A : Type 0} (now : ℕ) (s : Session) (content : Reply A)
      → let s' = (guarded env ttl now s content).1 in (s' ≡ s) ⊎ (s' ≡ lock_session s)
  unfolding guarded
  session-guarded now s content = elim (Bool-cases (is_enabled env)) [
    | inr e ↦ inl (rw (e, guarded) refl)
    | inl e ↦ elim (Bool-cases (is_unlocked ttl now s).0) [
      | inl u ↦ rw (e, u, guarded) (session-is_unlocked now s)
      | inr u ↦ rw (e, u, guarded) (session-is_unlocked now s)
    ]
  ]

  session-unlock_form :
      (client : String) (now : ℕ) (failures : Failures) (s : Session)
      → let s' = (unlock_form {A = String} env ttl client now failures s).1 in
        (s' ≡ s) ⊎ (s' ≡ lock_session s)
  unfolding unlock_form
  session-unlock_form client now failures s = elim (Bool-cases (is_enabled env)) [
    | inr e ↦ inl (rw (e, unlock_form) refl)
    | inl e ↦ elim (Bool-cases (is_unlocked ttl now s).0) [
      | inl u ↦ rw (e, u, unlock_form) (session-is_unlocked now s)
      | inr u ↦ rw (e, u, unlock_form) (session-is_unlocked now s)
    ]
  ]

  -- A page is made for an unlocked session only.
  guarded-page :
      (now : ℕ) (s : Session) (content : String)
      → (guarded env ttl now s (page content)).0 ≡ page content
      → (s.admin_unlocked ≡ true) × (session_expired ttl s.admin_unlocked_at now ≡ false)
  unfolding guarded is_unlocked
  guarded-page now s content h = elim (Bool-cases s.admin_unlocked) [
    | inr u ↦ ground (arith, u, h)
    | inl u ↦ elim (Bool-cases (session_expired ttl s.admin_unlocked_at now)) [
      | inl x ↦ ground (arith, u, x, h)
      | inr x ↦ (u, x)
    ]
  ]

  not_expired :
      (now t : ℕ) (at : Option ℕ)
      → at ≡ some t
      → session_expired ttl at now ≡ false
      → now ≤ t + ttl * second
  not_expired now t at e h =
      let kept : session_expired ttl (some t) now ≡ false =
        subst (λ o. session_expired ttl o now ≡ false) e h in
      ground (arith, kept)

IsOpened-is_enabled :
    (env : Option String) (es : List Event) (t : ℕ) → IsOpened env es t → is_enabled env ≡ true
IsOpened-is_enabled env es t (by_secret client candidate at es' right) = ap is_some right
IsOpened-is_enabled env es t (since e es' t' h opened) = IsOpened-is_enabled env es' t' opened

-- An open session was opened by the secret at its time, and the user of the sign-in stays.
abbrev IsHeld : (env : Option String) (user_id : Option String) → List Event → Session → Type 0
IsHeld env user_id es s =
    (s.admin_unlocked ≡ true → (t : ℕ) × (s.admin_unlocked_at ≡ some t) × IsOpened env es t)
    × (s.user_id ≡ user_id)

module _ (is_ascii : String → Bool) (env : Option String) (ttl : ℕ) (user_id : Option String) where
  -- A request that leaves the session alone, or locks it.
  IsHeld-step :
      (e : Event) (es : List Event) (s s' : Session)
      → is_leave e ≡ false
      → IsHeld env user_id es s
      → (s' ≡ s) ⊎ (s' ≡ lock_session s)
      → IsHeld env user_id (e ∷ es) s'
  IsHeld-step e es s s' h held (inl same) =
      subst (IsHeld env user_id (e ∷ es)) (sym same)
        ((λ u. let (t, at, opened) = held.0 u in (t, at, since e es t h opened)), held.1)
  IsHeld-step e es s s' h held (inr locked) =
      subst (IsHeld env user_id (e ∷ es)) (sym locked) ((λ u. absurd (cc)), held.1)

  step-IsHeld :
      (e : Event) (es : List Event) (failures : Failures) (s : Session)
      → IsHeld env user_id es s
      → IsHeld env user_id (e ∷ es) (step is_ascii env ttl e (failures, s)).1
  step-IsHeld (form client at) es failures s held =
      IsHeld-step (form client at) es s _ refl held
        (session-unlock_form env ttl client at failures s)
  step-IsHeld (view at) es failures s held =
      IsHeld-step (view at) es s _ refl held (session-guarded env ttl at s (page "content"))
  step-IsHeld (elsewhere client candidate at other) es failures s held =
      IsHeld-step (elsewhere client candidate at other) es s s refl held (inl refl)
  step-IsHeld leave es failures s held = elim (Bool-cases (is_enabled env)) [
    | inl e ↦
        subst (IsHeld env user_id (leave ∷ es)) (sym (session-lock env s e))
          ((λ u. absurd (cc)), held.1)
    | inr e ↦
        let off = λ (t : ℕ) (opened : IsOpened env es t). IsOpened-is_enabled env es t opened in
        subst (IsHeld env user_id (leave ∷ es)) (sym (session-lock_off env s e)) (
          (λ u. let (t, at, opened) = held.0 u in absurd (ground (arith, e, off t opened))),
          held.1,
        )
  ]
  step-IsHeld (post client candidate at) es failures s held =
      elim (session-unlock is_ascii env client candidate at failures s) [
        | inl same ↦ IsHeld-step (post client candidate at) es s _ refl held (inl same)
        | inr (opened, right) ↦
            subst (IsHeld env user_id (post client candidate at ∷ es)) (sym opened)
              ((λ u. (at, refl, by_secret client candidate at es right)), held.1)
      ]

  run-IsHeld : (es : List Event) → IsHeld env user_id es (run is_ascii env ttl user_id es).1
  run-IsHeld [] = ((λ u. absurd (cc)), refl)
  run-IsHeld (e ∷ es) =
      let (failures, s) = run is_ascii env ttl user_id es in
      step-IsHeld e es failures s (run-IsHeld es)

  -- A page of the area is shown only to a session whose browser has posted the secret of the
  -- environment, no longer ago than a session lasts, and has not locked the area since; posts from
  -- other sessions do not open it. None of this changes who is signed in.
  pub run_lem :
      (es : List Event) (now : ℕ) (content : String)
      → (guarded env ttl now (run is_ascii env ttl user_id es).1 (page content)).0 ≡ page content
      → ((t : ℕ) × IsOpened env es t × (now ≤ t + ttl * second))
        × ((run is_ascii env ttl user_id es).1.user_id ≡ user_id)
  run_lem es now content h =
      let s = (run is_ascii env ttl user_id es).1 in
      let held = run-IsHeld es in
      let (unlocked, lasts) = guarded-page env ttl now s content h in
      let (t, at, opened) = held.0 unlocked in
      ((t, opened, not_expired env ttl now t s.admin_unlocked_at at lasts), held.1)
