-- ===== src/Admin/Patched.antt =====
-- What a PATCH leaves of a key.
use rein.Base.{
  ◌≡◌, refl, Bool, true, false, not, ◌&&◌, ◌++◌, List, Option, if◌then◌else◌, Text, bytes, text_eq,
  inl, inr, Bool-cases,
}
use rein.Base.Try.{Try-cases}
use rein.Base.Float.{Float}
use rein.Keys.{VirtualKey, KeyPatch, Memory, Result, ok, err, new_memory, apply_to, is_revoked}
use rein.Keys
use rein.Keys.Calls.{Call, run, after_update}
use rein.Keys.Aliasing.{get_by_token-update}
use rein.Admin.{UpdateBody}
use rein.Admin.InMemory.{memory_store, patched}
use rein.Admin.Handlers.{
  World, Library, State, update_key, patch_to_apply, handle_update_key, updated, dispatch, serve,
}

-- The fields that no PATCH may change.
pub record SameIdentity {F : Type 0} (k : VirtualKey F) (k' : VirtualKey F) : Type 0 where
  pub id : k'.id ≡ k.id
  pub token : k'.token ≡ k.token
  pub upstream : k'.upstream ≡ k.upstream
  pub upstream_key : k'.upstream_key ≡ k.upstream_key
  pub created_at : k'.created_at ≡ k.created_at
  pub revoked_at : k'.revoked_at ≡ k.revoked_at

module _ {F : Type 0} where
  same_identity : (k : VirtualKey F) → SameIdentity k k
  same_identity k = record {
    id = refl;
    token = refl;
    upstream = refl;
    upstream_key = refl;
    created_at = refl;
    revoked_at = refl;
  }

  patched_identity :
      (k : VirtualKey F) (p : KeyPatch F) (b : Bool)
      → SameIdentity k (if b then apply_to p k else k)
  unfolding apply_to
  patched_identity k p true = record {
    id = refl;
    token = refl;
    upstream = refl;
    upstream_key = refl;
    created_at = refl;
    revoked_at = refl;
  }
  patched_identity k p false = same_identity k

  module _ {Ip : Type 0} ⦃fl : Float F⦄ (lib : Library Ip) where
    updated_store :
        (m : Memory F) (o : Result (Memory F × VirtualKey F))
        → (updated memory_store lib (patched m o)).1 ≡ after_update m o
    updated_store m (ok (n, k)) = refl
    updated_store m (err e) = refl

    -- Whatever a PATCH request says, and whatever its answer, every token of a store that calls made
    -- still leads to its key, with the id, token, upstream, upstream key, creation and revocation that
    -- it had.
    pub get_by_token-serve_update :
        (cs : List (Call F)) (token : Text) (st : State {F = F} memory_store lib) (w : World)
        (authorization id : Text) (body : Option (UpdateBody F)) (t : Text) (k : VirtualKey F)
        → st.store ≡ run new_memory cs
        → Keys.get_by_token st.store t ≡ ok k
        → (k' : VirtualKey F) × (Keys.get_by_token
              (serve memory_store lib token st w authorization (update_key id body)).1.store
              t
            ≡ ok k')
          × SameIdentity k k'
    unfolding serve dispatch handle_update_key
    get_by_token-serve_update cs token st w authorization id body t k built got =
        elim (Bool-cases (text_eq authorization (bytes "Bearer " ++ token))) [
          | inr stranger ↦ (k, rw (stranger, dispatch) got, same_identity k)
          | inl known ↦ elim (Try-cases (patch_to_apply memory_store lib st.store w id body)) [
            | inr (x, refused) ↦
                (k, rw (known, dispatch, handle_update_key, refused) got, same_identity k)
            | inl (p, asked) ↦
                let from : Keys.get_by_token (run new_memory cs) t ≡ ok k = rw (← built) got in
                let after : Keys.get_by_token (after_update st.store (Keys.update st.store id p)) t
                    ≡ ok (if text_eq id k.id && not (is_revoked k) then apply_to p k else k) =
                  rw built (get_by_token-update cs t id p k from) in
                (
                  if text_eq id k.id && not (is_revoked k) then apply_to p k else k,
                  rw
                      (
                        known,
                        dispatch,
                        handle_update_key,
                        asked,
                        updated_store st.store (Keys.update st.store id p),
                      )
                      after,
                  patched_identity k p (text_eq id k.id && not (is_revoked k)),
                )
          ]
        ]
