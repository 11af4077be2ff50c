-- ===== src/ApiKeys/Minting.antt =====
-- A key that is minted authenticates its user, and the default key is rotated.
use recall_select.Prelude.{
  ℕ, zero, suc, ◌≡◌, ◌∷◌, refl, false, none, some, String, List, [], Option, Bool-cases, inl, inr,
  arith, eq_iff, eq_refl, is_some, any,
}
use recall_select.Mongo.{
  Driver, find_one, find_one_lem, insert_one, insert_one_lem, placed_lem, placed,
}
use recall_select.Mongo.Query.{first, first-insertion_hit}
use recall_select.Documents.{ApiKey, Database, ok, Result, err, runtime_error, api_keys_index}
use recall_select.ApiKeys.{Draw, attempt, add_api_key, new_key, generate_key, has_hash, get_by_key}

-- What a database lacks that a new key is inserted in.
none_with_hash :
    (k : ApiKey) (keys : List ApiKey)
    → any (api_keys_index k) keys ≡ false
    → first (has_hash k.key_hash) keys ≡ none
none_with_hash k [] h = refl
none_with_hash k (j ∷ keys) h =
    ground
      (arith, eq_iff j.key_hash k.key_hash, eq_iff k.key_hash j.key_hash, none_with_hash k keys)

module _ ⦃mongo : Driver⦄ (hash : String → String) (user_id : String) (label : Option String)
    (now : ℕ) (db : Database) where
  -- A success stores one new key, whose draw is among those of the attempts.
  pub attempt_lem :
      (fuel : ℕ) (draws : ℕ → Draw) (k : ApiKey) (token : String) (db' : Database)
      → attempt hash fuel draws user_id label now db ≡ ok ((k, token), db')
      → (draw : Draw) × (k ≡ new_key hash draw user_id label now)
        × (token ≡ generate_key draw)
        × (any (api_keys_index k) db.api_keys ≡ false)
        × (db' ≡ record db { api_keys = placed k db.api_keys })
  unfolding attempt
  attempt_lem zero draws k token db' h = cc
  attempt_lem (suc fuel) draws k token db' h =
      let d : Draw = draws 0 in
      let fresh : ApiKey = new_key hash d user_id label now in
      let law = insert_one_lem api_keys_index fresh db.api_keys in
      elim (Bool-cases (any (api_keys_index fresh) db.api_keys)) [
        | inl taken ↦
            let full : insert_one api_keys_index fresh db.api_keys ≡ none = ground (arith, law) in
            elim (Bool-cases (is_some (find_one (has_hash fresh.key_hash) db.api_keys))) [
              | inl t ↦
                  attempt_lem fuel (λ i. draws (suc i)) k token db'
                    (rw (← h, full, t, attempt) refl)
              | inr t ↦
                  let failed : Result ((ApiKey × String) × Database) = err runtime_error in
                  let h' : failed ≡ ok ((k, token), db') = rw (← h, full, t, attempt) refl in cc
            ]
        | inr free ↦
            let room : insert_one api_keys_index fresh db.api_keys
                ≡ some (placed fresh db.api_keys) =
              ground (arith, law) in
            let done : Result ((ApiKey × String) × Database) =
              ok ((fresh, generate_key d), record db { api_keys = placed fresh db.api_keys }) in
            let h' : done ≡ ok ((k, token), db') = rw (← h, room, attempt) refl in
            (
              d,
              ground (arith, h'),
              ground (arith, h'),
              ground (arith, h', free),
              ground (arith, h'),
            )
      ]

  -- The plaintext that minting reveals resolves to the key it has stored, which belongs to the user
  -- and carries the label.
  pub minted_authenticates :
      (draws : ℕ → Draw) (k : ApiKey) (token : String) (db' : Database) (later : ℕ)
      → add_api_key hash draws user_id label now db ≡ ok ((k, token), db')
      → (get_by_key hash token false later db' ≡ (some k, db'))
        × (k.user_id ≡ user_id)
        × (k.label ≡ label)
  unfolding get_by_key
  minted_authenticates draws k token db' later h =
      let (d, e, t, free, stored) = attempt_lem 3 draws k token db' h in
      let hashed : k.key_hash ≡ hash token = ground (arith, e, t) in
      let hit =
        first-insertion_hit (has_hash k.key_hash) (placed_lem k db.api_keys)
          (none_with_hash k db.api_keys free) (eq_refl k.key_hash) in
      let found : find_one (has_hash (hash token)) db'.api_keys ≡ some k =
        rw (stored, ← hashed, find_one_lem (has_hash k.key_hash) (placed k db.api_keys)) hit in
      (rw (found, get_by_key) refl, ground (arith, e), ground (arith, e))
