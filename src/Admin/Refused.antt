-- ===== src/Admin/Refused.antt =====
-- Requests over the in-memory store that are answered by an error.
use rein.Base.{
  ℕ, ◌≡◌, refl, ap, sym, ◌∙◌, true, ◌++◌, Option, none, some, Text, bytes, text_eq, lookup,
  get_elem?, get_elem?-set_self, arith, inl, inr, Bool-cases, Option-cases, ltb,
}
use rein.Base.Try.{Try-cases}
use rein.Base.Float.{Float}
use rein.Keys.{VirtualKey, KeyPatch, Memory, KeyError, Result, ok, err, or_not_found, read}
use rein.Keys
use rein.Keys.{store_key}
use rein.Admin.{Response, CreateBody, UpdateBody, valid_id}
use rein.Admin.Handlers.{
  World, Library, State, Route, set_freeze, get_freeze, create_key, list_keys, update_key,
  revoke_key, key_to_create, handle_create_key, handle_list_keys, handle_revoke_key,
  handle_update_key, patch_to_apply, created, revoked_view, updated, with_store, dispatch, serve,
}
use rein.Admin.InMemory.{ok_inj, changed, patched, memory_store}

module _ {F : Type 0} where
  module _ {Ip : Type 0} ⦃fl : Float F⦄ (lib : Library Ip) where
    -- An error leaves the store, in each handler.
    create_refused :
        (m m' : Memory F) (w : World) (body : Option (CreateBody F)) (r : Response F)
        → handle_create_key memory_store lib m w body ≡ (r, m')
        → ltb 399 r.status ≡ true
        → m' ≡ m
    unfolding handle_create_key
    create_refused m m' w body r e bad = elim (Try-cases (key_to_create memory_store lib w body)) [
      | inr (x, refused) ↦ sym (ap (λ q. q.1) (rw (refused, handle_create_key) at e))
      | inl (k, asked) ↦
          create_failed m m' k (Keys.create m (some k)) r (rw (asked, handle_create_key) at e) bad
    ]
      where
        create_failed :
            (m m' : Memory F) (k : VirtualKey F) (o : Result (Memory F)) (r : Response F)
            → created memory_store lib k (changed m o) ≡ (r, m')
            → ltb 399 r.status ≡ true
            → m' ≡ m
        create_failed m m' k (err x) r e bad = sym (ap (λ q. q.1) e)
        create_failed m m' k (ok n) r e bad =
            let status : 201 ≡ r.status = ap (λ q. q.0.status) e in absurd (ground arith)

    -- A key that has just been revoked is found again.
    revoke_found :
        (m n : Memory F) (id : Text) (now : ℕ)
        → Keys.revoke m id now ≡ ok n
        → (k : VirtualKey F) × (Keys.get_by_id n id ≡ ok k)
    unfolding Keys.revoke Keys.modify Keys.write Keys.get_by_id read
    revoke_found m n id now e = elim (Option-cases (lookup id m.by_id)) [
      | inl missing ↦ absurd (ground arith)
      | inr (a, entry) ↦ elim (Option-cases (get_elem? m.cells a)) [
        | inl dangling ↦ absurd (ground arith)
        | inr (k, cell) ↦
            let made : Keys.write m a (record k { revoked_at = some now }) ≡ n =
              ok_inj (rw (entry, Keys.modify, cell) at e) in
            (
              record k { revoked_at = some now },
              rw (← made) (
                  rw
                    (
                      entry,
                      read,
                      get_elem?-set_self m.cells a (record k { revoked_at = some now }) cell,
                    )
                    refl),
            )
      ]
    ]

    revoke_refused :
        (m m' : Memory F) (w : World) (id : Text) (r : Response F)
        → handle_revoke_key memory_store lib m w id ≡ (r, m')
        → ltb 399 r.status ≡ true
        → m' ≡ m
    unfolding handle_revoke_key
    revoke_refused m m' w id r e bad = elim (Bool-cases (valid_id id)) [
      | inr malformed ↦ sym (ap (λ q. q.1) (rw malformed at e))
      | inl well ↦ revoke_failed (Keys.revoke m id w.now) refl (rw well at e)
    ]
      where
        revoke_failed :
            (o : Result (Memory F))
            → Keys.revoke m id w.now ≡ o
            → revoked_view memory_store lib id (changed m o) ≡ (r, m')
            → m' ≡ m
        revoke_failed (err x) o h = sym (ap (λ q. q.1) h)
        revoke_failed (ok n) o h =
            let (k, there) = revoke_found m n id w.now o in
            let status : 200 ≡ r.status = ap (λ q. q.0.status) (rw (there, revoked_view) at h) in
            absurd (ground arith)

    update_refused :
        (m m' : Memory F) (w : World) (id : Text) (body : Option (UpdateBody F)) (r : Response F)
        → handle_update_key memory_store lib m w id body ≡ (r, m')
        → ltb 399 r.status ≡ true
        → m' ≡ m
    unfolding handle_update_key
    update_refused m m' w id body r e bad =
        elim (Try-cases (patch_to_apply memory_store lib m w id body)) [
          | inr (x, refused) ↦ sym (ap (λ q. q.1) (rw (refused, handle_update_key) at e))
          | inl (p, asked) ↦ update_failed (Keys.update m id p) (rw (asked, handle_update_key) at e)
        ]
      where
        update_failed :
            (o : Result (Memory F × VirtualKey F))
            → updated memory_store lib (patched m o) ≡ (r, m')
            → m' ≡ m
        update_failed (err x) h = sym (ap (λ q. q.1) h)
        update_failed (ok (n, k)) h =
            let status : 200 ≡ r.status = ap (λ q. q.0.status) h in absurd (ground arith)

    stored :
        (st st' : State {F = F} memory_store lib) (p : Response F × Memory F) (r : Response F)
        → with_store memory_store lib st p ≡ (r, st')
        → ((m : Memory F) → p ≡ (r, m) → m ≡ st.store)
        → st' ≡ st
    stored st st' (q, m) r e same =
        let status : q ≡ r = ap (λ x. x.0) e in
        sym (ap (λ x. x.1) e)
        ∙ ap (λ (n : Memory F). record st { store = n }) (same m (ap (λ x. (x, m)) status))

    dispatch_refused :
        (st st' : State {F = F} memory_store lib) (w : World)
        (route : Route {F = F} memory_store lib) (r : Response F)
        → dispatch memory_store lib st w route ≡ (r, st')
        → ltb 399 r.status ≡ true
        → st' ≡ st
    unfolding dispatch handle_list_keys
    dispatch_refused st st' w (set_freeze none) r e bad = sym (ap (λ q. q.1) e)
    dispatch_refused st st' w (set_freeze (some b)) r e bad =
        let status : 200 ≡ r.status = ap (λ q. q.0.status) e in absurd (ground arith)
    dispatch_refused st st' w get_freeze r e bad = sym (ap (λ q. q.1) e)
    dispatch_refused st st' w (create_key b) r e bad =
        stored st st' _ r e (λ m h. create_refused st.store m w b r h bad)
    dispatch_refused st st' w list_keys r e bad = sym (ap (λ q. q.1) e)
    dispatch_refused st st' w (update_key id b) r e bad =
        stored st st' _ r e (λ m h. update_refused st.store m w id b r h bad)
    dispatch_refused st st' w (revoke_key id) r e bad =
        stored st st' _ r e (λ m h. revoke_refused st.store m w id r h bad)

    -- A request that is answered by an error, whatever its route, its body and its token, leaves the
    -- freeze and every key as they were.
    pub serve_refused :
        (token : Text) (st st' : State {F = F} memory_store lib) (w : World) (authorization : Text)
        (route : Route {F = F} memory_store lib) (r : Response F)
        → serve memory_store lib token st w authorization route ≡ (r, st')
        → ltb 399 r.status ≡ true
        → st' ≡ st
    unfolding serve
    serve_refused token st st' w authorization route r e bad =
        elim (Bool-cases (text_eq authorization (bytes "Bearer " ++ token))) [
          | inr stranger ↦ sym (ap (λ q. q.1) (rw stranger at e))
          | inl known ↦ dispatch_refused st st' w route r (rw known at e) bad
        ]
