-- ===== src/Admin/Gate/Lockout.antt =====
-- The brake on guesses: how many of one client's guesses are tested in a span of time.
use mathlib.Core.Path.{subst}
use recall_select.Prelude.{
  sym, ap, ◌∙◌, eq_of_==, leb→le, ℕ, ◌+◌, ◌-◌, ◌*◌, ◌≤◌, ◌<◌, ◌≡◌, Bool, true, false, not, ◌&&◌,
  ◌||◌, if◌then◌else◌, Option, none, some, List, [], ◌∷◌, String, ◌==◌, lookup, lookup-insert,
  lookup-dropped, get_or, leb, eqb, All, Bool-cases, Option-cases, inl, inr, arith, eq_iff,
}
use recall_select.Billing.Tiers.{second}
use recall_select.Admin.Gate.{
  Reply, unlock_page, Session, Failures, failures_of, locked_out, record_failure, verify, unlock,
  lockout_seconds, is_enabled,
}

-- A guess that is posted to the unlock page, in the session of its client.
pub record Guess : Type 0 where
  pub client : String
  pub candidate : String
  pub at : ℕ
  pub session : Session

module _ (is_ascii : String → Bool) (env : Option String) where
  abbrev answer : Guess → Failures → Reply String
  answer g failures =
      (unlock {A = String} is_ascii env g.client g.candidate g.at failures g.session).0

  abbrev after : Guess → Failures → Failures
  after g failures =
      (unlock {A = String} is_ascii env g.client g.candidate g.at failures g.session).1.0

  -- The guess was compared with the secret, and was wrong.
  abbrev pub is_tested : {A : Type 0} → Reply A → Bool
  is_tested (unlock_page status wait) = eqb status 401
  is_tested _ = false

  -- How many of the client's guesses were tested and wrong.
  abbrev pub tested : (client : String) → List Guess → Failures → ℕ
  tested client [] failures = 0
  tested client (g ∷ gs) failures =
      (if g.client == client && is_tested (answer g failures) then 1 else 0)
      + tested client gs (after g failures)

  -- None of the client's guesses is the secret.
  abbrev pub is_wrong : (client : String) → Guess → Bool
  is_wrong client g =
      not (g.client == client)
      || elim (verify is_ascii env g.candidate) [ some true ↦ false | _ ↦ true ]

  -- What a guess does to the failures of a client: nothing, unless it is the client's, and tested.
  failures_of-after :
      (client : String) (g : Guess) (failures : Failures)
      → is_wrong client g ≡ true
      → failures_of client (after g failures) ≡ (
          if g.client == client && is_tested (answer g failures)
          then ((failures_of client failures).0 + 1, g.at + lockout_seconds * second)
          else failures_of client failures)
  unfolding unlock record_failure
  failures_of-after client g failures h = elim (Bool-cases (is_enabled env)) [
    | inr e ↦ ground (arith, e)
    | inl e ↦ elim (Bool-cases (eqb (locked_out g.client g.at failures) 0)) [
      | inr w ↦ ground (arith, e, w)
      | inl w ↦ elim (Option-cases (verify is_ascii env g.candidate)) [
        | inl v ↦ ground (arith, e, w, v)
        | inr (false, v) ↦ ground (
          arith,
          e,
          w,
          v,
          eq_iff g.client client,
          lookup-insert g.client client
              ((failures_of g.client failures).0 + 1, g.at + lockout_seconds * second) failures,
        )
        | inr (true, v) ↦
            ground
              (arith, e, w, v, h, eq_iff g.client client, lookup-dropped g.client failures client)
      ]
    ]
  ]

  -- A tested guess was not held up.
  held_up :
      (g : Guess) (failures : Failures)
      → is_tested (answer g failures) ≡ true
      → locked_out g.client g.at failures ≡ 0
  unfolding unlock
  held_up g failures h = ground (arith, h)

  not_waiting :
      (client : String) (at : ℕ) (failures : Failures)
      → locked_out client at failures ≡ 0
      → 5 ≤ (failures_of client failures).0
      → (failures_of client failures).1 < at + second
  unfolding locked_out
  not_waiting client at failures h le = ground (arith, h, le)

  -- A client that has failed five times or more waits since the last of its tested guesses, and these
  -- lie 299 seconds apart from the fifth on.
  abbrev IsSpaced : (begin close count until : ℕ) → Type 0
  IsSpaced begin close count until =
      (5 ≤ count → begin + (count - 5) * 299_000_000 + 300_000_000 ≤ until)
      × ((count - 5) * 299_000_000 ≤ close - begin)

  IsSpaced-tested :
      (begin close count until at : ℕ)
      → IsSpaced begin close count until
      → begin ≤ at
      → at ≤ close
      → (5 ≤ count → until < at + second)
      → IsSpaced begin close (count + 1) (at + lockout_seconds * second)
  IsSpaced-tested begin close count until at h from to w = elim (Bool-cases (leb 5 count)) [
    | inl e ↦
        let le = leb→le 5 count e in
        let soon = w le in ((λ more. omega (arith, h.0 le)), omega (arith, h.0 le))
    | inr e ↦ let few : count < 5 = ground arith in ((λ more. omega arith), omega arith)
  ]

  tested_le :
      (client : String) (begin close : ℕ) (gs : List Guess) (failures : Failures)
      → IsSpaced begin close (failures_of client failures).0 (failures_of client failures).1
      → All (λ g. is_wrong client g ≡ true) gs
      → All (λ g. (begin ≤ g.at) × (g.at ≤ close)) gs
      → ((failures_of client failures).0 + tested client gs failures - 5) * 299_000_000
        ≤ close - begin
  tested_le client begin close [] failures s h w = omega (arith, s.1)
  tested_le client begin close (g ∷ gs) failures s h w =
      let known = failures_of-after client g failures h.0 in
      let spaced = λ (p : ℕ × ℕ). IsSpaced begin close p.0 p.1 in
      elim (Bool-cases (g.client == client && is_tested (answer g failures))) [
        | inr b ↦
            let e : failures_of client (after g failures) ≡ failures_of client failures =
              known ∙ ground (arith, b) in
            let rest =
              tested_le client begin close gs (after g failures) (subst spaced (sym e) s) h.1 w.1 in
            ground (arith, b, rest, ap (λ (p : ℕ × ℕ). p.0) e)
        | inl b ↦
            let same = eq_of_== g.client client (ground (arith, b)) in
            let free =
              subst (λ k. locked_out k g.at failures ≡ 0) same
                (held_up g failures (ground (arith, b))) in
            let e : failures_of client (after g failures)
                ≡ ((failures_of client failures).0 + 1, g.at + lockout_seconds * second) =
              known ∙ ground (arith, b) in
            let next =
              IsSpaced-tested begin close (failures_of client failures).0
                (failures_of client failures).1 g.at s w.0.0 w.0.1
                (not_waiting client g.at failures free) in
            let rest =
              tested_le client begin close gs (after g failures) (subst spaced (sym e) next) h.1
                w.1 in
            ground (arith, b, rest, ap (λ (p : ℕ × ℕ). p.0) e)
      ]

  -- Of a client that has no failures yet and that never posts the secret, at most five guesses are
  -- tested in a span of time, and one more for each 299 seconds of it, whatever other clients post and
  -- however many guesses it posts itself.
  pub tested_lem :
      (client : String) (begin close : ℕ) (gs : List Guess) (failures : Failures)
      → lookup client failures ≡ none
      → All (λ g. is_wrong client g ≡ true) gs
      → All (λ g. (begin ≤ g.at) × (g.at ≤ close)) gs
      → (tested client gs failures - 5) * (299 * second) ≤ close - begin
  tested_lem client begin close gs failures e h w =
      let nothing : failures_of client failures ≡ (0, 0) = ap (λ o. get_or o (0, 0)) e in
      let spaced = λ (p : ℕ × ℕ). IsSpaced begin close p.0 p.1 in
      let start : IsSpaced begin close 0 0 = ((λ more. omega arith), omega arith) in
      omega (
        arith,
        ap (λ (p : ℕ × ℕ). p.0) nothing,
        tested_le client begin close gs failures (subst spaced (sym nothing) start) h w,
      )
