-- ===== src/Admin/Handlers.antt =====
-- The handlers, and the routes behind the check of the bearer token. The answer of a handler is the
-- response and the state that it leaves.
use rein.Base.{
  ℕ, Bool, not, [], ◌++◌, Option, none, some, if◌then◌else◌, Text, bytes, text_eq, trim_space, map,
}
use rein.Base.Try.{Try, done, failed, ◌>>=◌, ◌>>◌}
use rein.Base.Float.{Float}
use rein.Rfc3339.{Rfc3339}
use rein.BaseUrl.{Net, UrlCode}
use rein.Cipher.{Random}
use rein.Keys.{VirtualKey, KeyPatch}
use rein.Admin.{
  Response, CreateBody, UpdateBody, Fault, not_found, revoked, KeyStore, frozen_state, key,
  created_key, key_list, refuse, write_error, write_json, internal_error, bad_request, guard,
  refuse_as, generate_id, generate_token, valid_id, view_of,
}
use rein.Admin.Checks.{
  check_name, create_base_url, check_base_url, create_expires_at, update_expires_at, check_create,
  check_update, has_immutable, update_name, upstream_of,
}

-- What comes from outside in a call: the clock at its two readings, and the randomness of the id and
-- of the token.
pub record World : Type 0 where
  pub now : ℕ
  pub later : ℕ
  pub id_rand : Random
  pub token_rand : Random

-- The parts of the standard library that the handlers use.
pub record Library (Ip : Type 0) : Type 0 where
  pub clock : Rfc3339
  pub net : Net Ip
  pub url_message : UrlCode → Text
  pub unquote : Text → Option Text

-- A failed check is the response, and leaves the store.
abbrev pub settle :
    {F : Type 0} {S : Type 0} {A : Type 0}
    → S
    → Try (Response F) A
    → (A → Response F × S)
    → Response F × S
settle s (failed r) f = (r, s)
settle s (done a) f = f a

module _ {F : Type 0} {S : Type 0} {Ip : Type 0} ⦃fl : Float F⦄ (ks : KeyStore S F)
    (lib : Library Ip) where
  -- The key that a body asks for, up to the call of the store.
  unfoldable pub key_to_create : World → Option (CreateBody F) → Try (Response F) (VirtualKey F)
  key_to_create w body = do
    b ← refuse_as (bad_request (bytes "invalid json body")) body
    name ← check_name (bytes "name is required") b.name
    check_create b
    base ← create_base_url lib.net lib.url_message b.upstream b.upstream_base_url
    expires ← create_expires_at lib.clock w.now b.expires_at
    id ← refuse_as internal_error (generate_id w.id_rand)
    token ← refuse_as internal_error (generate_token w.token_rand)
    done (record {
      id = id;
      token = token;
      name = name;
      upstream = b.upstream;
      upstream_key = b.upstream_key;
      daily_budget_usd = b.daily_budget_usd;
      month_budget_usd = b.month_budget_usd;
      upstream_base_url = base;
      rps_limit = b.rps_limit;
      rpm_limit = b.rpm_limit;
      max_concurrent = b.max_concurrent;
      upstream_timeout_seconds = b.upstream_timeout_seconds;
      created_at = w.later;
      revoked_at = none;
      expires_at = expires;
    })

  abbrev pub created : VirtualKey F → Try Fault Unit × S → Response F × S
  created k (failed _, s) = (refuse 500 (bytes "failed to create key"), s)
  created k (done _, s) = (write_json 201 (created_key (view_of k) k.token), s)

  unfoldable pub handle_create_key : S → World → Option (CreateBody F) → Response F × S
  unfolding key_to_create
  handle_create_key s w body = settle s (key_to_create w body) (λ k. created k (ks.create s k))

  unfoldable pub handle_list_keys : S → Response F × S
  handle_list_keys s = elim (ks.list_keys s) [
    | failed _ ↦ (internal_error, s)
    | done all ↦ (write_json 200 (key_list (map view_of all)), s)
  ]

  abbrev pub fault_response : Fault → Response F
  fault_response not_found = refuse 404 (bytes "key not found")
  fault_response _ = internal_error

  -- The key after the revocation, read again.
  abbrev pub revoked_view : Text → Try Fault Unit × S → Response F × S
  revoked_view id (failed e, s) = (fault_response e, s)
  revoked_view id (done _, s) = elim (ks.get_by_id s id) [
    | failed _ ↦ (internal_error, s)
    | done k ↦ (write_json 200 (key (view_of k)), s)
  ]

  unfoldable pub handle_revoke_key : S → World → Text → Response F × S
  handle_revoke_key s w id =
      if not (valid_id id)
      then (bad_request (bytes "invalid key id"), s)
      else revoked_view id (ks.revoke s id w.now)

  -- The base URL of a PATCH: the upstream of the key is read only where one is given.
  unfoldable pub update_base_url : S → Text → Option Text → Try (Response F) (Option Text)
  update_base_url s id none = done none
  update_base_url s id (some raw) = if text_eq (trim_space raw) [] then done (some []) else do
    upstream ← upstream_of (ks.get_by_id s id)
    base ← check_base_url lib.net lib.url_message upstream (trim_space raw)
    done (some base)

  -- The patch that a body asks for, up to the call of the store.
  unfoldable pub patch_to_apply :
      S → World → Text → Option (UpdateBody F) → Try (Response F) (KeyPatch F)
  unfolding update_base_url
  patch_to_apply s w id body = do
    guard (not (valid_id id)) (bad_request (bytes "invalid key id"))
    b ← refuse_as (bad_request (bytes "invalid json body")) body
    guard (has_immutable b) (
        write_error 400 (bytes "immutable_field")
          (bytes "id, token, upstream, upstream_key, created_at, and revoked_at cannot be changed"))
    name ← update_name b.name
    check_update b
    base ← update_base_url s id b.upstream_base_url
    expires ← update_expires_at lib.clock lib.unquote w.now b.expires_at
    done (record {
      name = name;
      daily_budget_usd = b.daily_budget_usd;
      month_budget_usd = b.month_budget_usd;
      rps_limit = b.rps_limit;
      rpm_limit = b.rpm_limit;
      max_concurrent = b.max_concurrent;
      upstream_base_url = base;
      upstream_timeout_seconds = b.upstream_timeout_seconds;
      expires_at = expires.0;
      clear_expires_at = expires.1;
    })

  abbrev pub update_error : Fault → Response F
  update_error not_found = refuse 404 (bytes "key not found")
  update_error revoked = write_error 409 (bytes "key_revoked") (bytes "cannot update a revoked key")
  update_error _ = internal_error

  abbrev pub updated : Try Fault (VirtualKey F) × S → Response F × S
  updated (failed e, s) = (update_error e, s)
  updated (done k, s) = (write_json 200 (key (view_of k)), s)

  unfoldable pub handle_update_key : S → World → Text → Option (UpdateBody F) → Response F × S
  unfolding patch_to_apply
  handle_update_key s w id body =
      settle s (patch_to_apply s w id body) (λ p. updated (ks.update s id p))

  -- The state of the server besides its token.
  pub record State : Type 0 where
    pub frozen : Bool
    pub store : S

  -- The routes that `Mount` registers, with what the mux finds in the path.
  pub data Route : Type 0 where
    set_freeze : Option Bool → Route
    get_freeze : Route
    create_key : Option (CreateBody F) → Route
    list_keys : Route
    update_key : Text → Option (UpdateBody F) → Route
    revoke_key : Text → Route

  -- handleSetFreeze, whose body is `frozen` where it decodes. The in-memory switch does not fail.
  abbrev pub handle_set_freeze : State → Option Bool → Response F × State
  handle_set_freeze st none = (bad_request (bytes "invalid json body"), st)
  handle_set_freeze st (some b) = (write_json 200 (frozen_state b), record st { frozen = b })

  abbrev pub handle_get_freeze : State → Response F × State
  handle_get_freeze st = (write_json 200 (frozen_state st.frozen), st)

  abbrev pub with_store : State → Response F × S → Response F × State
  with_store st (r, s) = (r, record st { store = s })

  unfoldable pub dispatch : State → World → Route → Response F × State
  dispatch st w (set_freeze b) = handle_set_freeze st b
  dispatch st w get_freeze = handle_get_freeze st
  dispatch st w (create_key b) = with_store st (handle_create_key st.store w b)
  dispatch st w list_keys = with_store st (handle_list_keys st.store)
  dispatch st w (update_key id b) = with_store st (handle_update_key st.store w id b)
  dispatch st w (revoke_key id) = with_store st (handle_revoke_key st.store w id)

  -- withAuth
  unfoldable pub serve : Text → State → World → Text → Route → Response F × State
  serve token st w authorization route =
      if not (text_eq authorization (bytes "Bearer " ++ token))
      then (refuse 401 (bytes "unauthorized"), st)
      else dispatch st w route
