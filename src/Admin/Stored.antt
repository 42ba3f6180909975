-- ===== src/Admin/Stored.antt =====
-- A key that the admin API makes, and the token that it shows.
use rein.Base.{
  ◌≡◌, ap, sym, true, ◌++◌, Option, some, Text, bytes, text_eq, lookup, arith, inl, inr, Bool-cases,
  Option-cases, ltb,
}
use rein.Base.Try.{Try-cases}
use rein.Base.Float.{Float}
use rein.Keys.{VirtualKey, KeyPatch, Memory, KeyError, Result, ok, err, or_not_found, read}
use rein.Keys
use rein.Keys.{store_key}
use rein.Keys.Store.{store_key-PointsTo_new}
use rein.Keys.Permanence.{PointsTo-get_by_token}
use rein.Admin.{Response, CreateBody, created_key, view_of, generate_token}
use rein.Admin.Created.{IsSane, AsAsked, key_to_create-IsSane}
use rein.Admin.Errors.{errs-key_to_create}
use mathlib.Core.Path.{subst}
use rein.Admin.Handlers.{
  World, Library, State, create_key, key_to_create, handle_create_key, dispatch, serve,
}
use rein.Admin.InMemory.{ok_inj, Result-cases, memory_store}

module _ {F : Type 0} where
  module _ {Ip : Type 0} ⦃fl : Float F⦄ (lib : Library Ip) where
    create_stored :
        (m n : Memory F) (k : VirtualKey F)
        → Keys.create m (some k) ≡ ok n
        → Keys.get_by_token n k.token ≡ ok k
    unfolding Keys.create Keys.create_valid
    create_stored m n k e = elim (Option-cases (Keys.invalid_key k)) [
      | inr (x, refused) ↦ absurd (ground arith)
      | inl accepted ↦ elim (Option-cases (lookup k.id m.by_id)) [
        | inr (a, taken) ↦ absurd (ground (arith, taken))
        | inl new_id ↦ elim (Option-cases (lookup k.token m.by_token)) [
          | inr (a, taken) ↦ absurd (ground (arith, taken))
          | inl new_token ↦
              let made : store_key m k ≡ n =
                ok_inj (rw (accepted, Keys.create, Keys.create_valid, new_id, new_token) at e) in
              rw (← made)
                (PointsTo-get_by_token _ _ k (store_key-PointsTo_new m k new_id new_token))
        ]
      ]
    ]

    -- A request to create a key that is answered by 201 has a body that decodes, and carries the view
    -- and the token of a key which has every field as the body asks, within the bounds of the API, and
    -- the token that was generated; and the store that it leaves resolves this token to exactly this
    -- key.
    pub get_by_token-serve :
        (token : Text) (st st' : State {F = F} memory_store lib) (w : World) (authorization : Text)
        (body : Option (CreateBody F)) (r : Response F)
        → serve memory_store lib token st w authorization (create_key body) ≡ (r, st')
        → r.status ≡ 201
        → (k : VirtualKey F) × (r.body ≡ created_key (view_of k) k.token)
          × IsSane w.now k
          × (generate_token w.token_rand ≡ some k.token)
          × ((b : CreateBody F) × (body ≡ some b) × AsAsked lib w.later b k)
          × (Keys.get_by_token st'.store k.token ≡ ok k)
    unfolding serve dispatch handle_create_key
    get_by_token-serve token st st' w authorization body r e made =
        elim (Bool-cases (text_eq authorization (bytes "Bearer " ++ token))) [
          | inr stranger ↦
              let status : 401 ≡ r.status = ap (λ q. q.0.status) (rw stranger at e) in
              absurd (ground arith)
          | inl known ↦ elim (Try-cases (key_to_create memory_store lib w body)) [
            | inr (x, refused) ↦
                let shown : x ≡ r =
                  ap (λ q. q.0) (rw (known, dispatch, handle_create_key, refused) at e) in
                let high : ltb 399 x.status ≡ true =
                  rw refused at (errs-key_to_create memory_store lib w body) in
                absurd (ground (arith, shown, high, made))
            | inl (k, asked) ↦ elim (Result-cases (Keys.create st.store (some k))) [
              | inr (x, failed_) ↦
                  let status : 500 ≡ r.status =
                    ap (λ q. q.0.status)
                      (rw (known, dispatch, handle_create_key, asked, failed_) at e) in
                  absurd (ground arith)
              | inl (n, stored_) ↦
                  let answer = rw (known, dispatch, handle_create_key, asked, stored_) at e in
                  let (sane, _, token_, as_asked) =
                    key_to_create-IsSane memory_store lib w body k asked in
                  (
                    k,
                    sym (ap (λ q. q.0.body) answer),
                    sane,
                    token_,
                    as_asked,
                    subst (λ m. Keys.get_by_token m k.token ≡ ok k) (ap (λ q. q.1.store) answer)
                        (create_stored st.store n k stored_),
                  )
            ]
          ]
        ]
