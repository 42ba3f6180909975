-- ===== src/Admin/Tests.antt =====
-- Requests to the admin API over the in-memory store.
use rein.Base.{
  ℕ, suc, zero, ◌≡◌, ◌<◌, refl, true, false, List, [], ◌∷◌, none, some, Text, bytes, text_eq, pos,
  ltb, All, length, trim_space, cut_prefix, drop, arith, lookup, insert, some_inj,
}
use mathlib.Core.Path.{subst}
use rein.Samples.{cents, sample_key, sample_token}
use rein.Cipher.Toy.{toy_random, zeros, length-zeros}
use rein.Rfc3339.Unary.{unary_clock}
use rein.BaseUrl.{Net}
use rein.Keys.{VirtualKey, Memory, ok, new_memory, invalid_key, create_valid, store_key}
use rein.Keys
use rein.Keys.Calls.{Call, creates, run, step}
use rein.Admin.{
  Response, CreateBody, UpdateBody, created_key, view_of, generate_id, generate_token, random_hex,
  encode_hex, valid_id, all_hex,
}
use rein.Admin.Checks.{check_name, check_create, create_base_url, create_expires_at}
use rein.Admin.Handlers.{
  World, Library, State, create_key, revoke_key, update_key, key_to_create, handle_create_key,
  handle_revoke_key, dispatch, serve,
}
use rein.Admin.Created.{IsSane, AsAsked, valid_id-generate_id}
use rein.Admin.InMemory.{memory_store}
use rein.Admin.Refused.{serve_refused}
use rein.Admin.Stored.{get_by_token-serve}
use rein.Admin.Patched.{SameIdentity, get_by_token-serve_update}

abbrev net : Net ℕ
net = record {
  parse_url = λ t. none;
  parse_ip = λ t. none;
  lookup_ip = λ t. none;
  is_loopback = λ a. false;
}

abbrev lib : Library ℕ
lib = record { clock = unary_clock; net = net; url_message = λ c. []; unquote = λ t. some t }

abbrev world : World
world = record { now = 10; later = 11; id_rand = toy_random; token_rand = toy_random }

abbrev token : Text
token = bytes "secret"

abbrev authorization : Text
authorization = bytes "Bearer secret"

abbrev empty_state : State {F = ℕ} ⦃fl = cents⦄ memory_store lib
empty_state = record { frozen = false; store = new_memory }

abbrev wanted : CreateBody ℕ
wanted = record {
  name = bytes " team ";
  upstream = bytes "openai";
  upstream_key = bytes "sk-0";
  daily_budget_usd = 500;
  month_budget_usd = 0;
  rps_limit = pos 5;
  rpm_limit = pos 0;
  max_concurrent = pos 2;
  upstream_timeout_seconds = pos 0;
  upstream_base_url = [];
  expires_at = [];
}

abbrev created_answer : Response ℕ × State {F = ℕ} ⦃fl = cents⦄ memory_store lib
created_answer =
    serve ⦃fl = cents⦄ memory_store lib token empty_state world authorization
      (create_key (some wanted))

answered : created_answer.0.status ≡ 201
unfolding serve dispatch handle_create_key key_to_create check_name check_create create_base_url
    create_expires_at generate_id generate_token random_hex encode_hex zeros text_eq trim_space
    bytes Keys.create invalid_key create_valid lookup
answered = refl

get_by_token-serve_example :
    (k : VirtualKey ℕ) × (created_answer.0.body ≡ created_key (view_of k) k.token)
    × IsSane ⦃fl = cents⦄ 10 k
    × (generate_token toy_random ≡ some k.token)
    × ((b : CreateBody ℕ) × (some wanted ≡ some b) × AsAsked lib 11 b k)
    × (Keys.get_by_token created_answer.1.store k.token ≡ ok k)
get_by_token-serve_example =
    get_by_token-serve ⦃fl = cents⦄ lib token empty_state created_answer.1 world authorization
      (some wanted) created_answer.0 refl answered

-- A revocation of a key that is not there.
abbrev missing_id : Text
missing_id = bytes "key_0000000000000000"

abbrev missing_answer : Response ℕ × State {F = ℕ} ⦃fl = cents⦄ memory_store lib
missing_answer =
    serve ⦃fl = cents⦄ memory_store lib token empty_state world authorization
      (revoke_key missing_id)

not_there : ltb 399 missing_answer.0.status ≡ true
unfolding serve dispatch handle_revoke_key valid_id all_hex cut_prefix text_eq bytes Keys.revoke
    Keys.modify lookup drop
not_there = refl

serve_refused_example : missing_answer.1 ≡ empty_state
serve_refused_example =
    serve_refused ⦃fl = cents⦄ lib token empty_state missing_answer.1 world authorization
      (revoke_key missing_id) missing_answer.0 refl not_there

-- A PATCH of a key.
abbrev listed_key : VirtualKey ℕ
listed_key = record sample_key { id = missing_id }

abbrev calls : List (Call ℕ)
calls = creates listed_key ∷ []

abbrev patch_body : UpdateBody ℕ
patch_body = record {
  name = some (bytes "renamed");
  daily_budget_usd = none;
  month_budget_usd = none;
  rps_limit = none;
  rpm_limit = none;
  max_concurrent = none;
  upstream_timeout_seconds = none;
  upstream_base_url = none;
  expires_at = bytes "null";
  id = false;
  token = false;
  upstream = false;
  upstream_key = false;
  created_at = false;
  revoked_at = false;
}

abbrev made_state : State {F = ℕ} ⦃fl = cents⦄ memory_store lib
made_state = record { frozen = false; store = run new_memory calls }

made_key : Keys.get_by_token (run new_memory calls) sample_token ≡ ok listed_key
unfolding run step Keys.create invalid_key create_valid store_key Keys.get_by_token Keys.read lookup
    insert text_eq bytes
made_key = refl

get_by_token-serve_update_example :
    (k' : VirtualKey ℕ) × (Keys.get_by_token
        (serve ⦃fl = cents⦄ memory_store lib token made_state world authorization
          (update_key missing_id (some patch_body))).1.store
        sample_token
      ≡ ok k')
    × SameIdentity listed_key k'
get_by_token-serve_update_example =
    get_by_token-serve_update ⦃fl = cents⦄ lib calls token made_state world authorization missing_id
      (some patch_body) sample_token listed_key refl made_key

generated : generate_id toy_random ≡ some missing_id
unfolding generate_id random_hex encode_hex zeros bytes
generated = refl

zeros_small : (n : ℕ) → All (λ c. c < 256) (zeros n)
unfolding zeros
zeros_small zero = tt
zeros_small (suc n) = (omega arith, zeros_small n)

eight_bytes : (b : Text) → toy_random 8 ≡ some b → (length b ≡ 8) × All (λ c. c < 256) b
eight_bytes b e =
    subst (λ t. (length t ≡ 8) × All (λ c. c < 256) t) (some_inj e) (length-zeros 8, zeros_small 8)

valid_id-generate_id_example : valid_id missing_id ≡ true
valid_id-generate_id_example = valid_id-generate_id toy_random missing_id eight_bytes generated
