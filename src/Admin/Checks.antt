-- ===== src/Admin/Checks.antt =====
-- The checks of a body: what `handleCreateKey` and `handleUpdateKey` find before they touch the store.
use rein.Base.{
  ℕ, ◌+◌, Bool, true, false, not, ◌&&◌, ◌||◌, ltb, [], ◌∷◌, Option, none, some, if◌then◌else◌, ℤ,
  pos, ltb_ℤ, negative, Text, bytes, text_eq, has_prefix, trim_space, length,
}
use rein.Base.Try.{Try, done, failed, ◌>>=◌, ◌>>◌}
use rein.Base.Float.{Float}
use rein.Rfc3339.{Rfc3339, second}
use rein.BaseUrl.{Net, UrlCode, bad_url, bad_scheme, bad_host, bad_query, bad_fragment, validate}
use rein.Keys.{VirtualKey, upstream_openai, upstream_anthropic}
use rein.Admin.{
  Response, CreateBody, UpdateBody, Fault, not_found, refuse, write_error, internal_error,
  bad_request, guard,
}

abbrev pub max_upstream_timeout_seconds : ℤ
max_upstream_timeout_seconds = pos 3600

abbrev pub err_code_invalid_expires_at : Text
err_code_invalid_expires_at = bytes "invalid_expires_at"

abbrev pub err_code_expires_in_past : Text
err_code_expires_in_past = bytes "expires_in_past"

abbrev pub invalid_base_url : Text
invalid_base_url = bytes "invalid_upstream_base_url"

-- The code of a BaseURLError as text.
unfoldable pub code_text : UrlCode → Text
code_text bad_url = invalid_base_url
code_text bad_scheme = bytes "invalid_upstream_base_url_scheme"
code_text bad_host = bytes "invalid_upstream_base_url_host"
code_text bad_query = bytes "invalid_upstream_base_url_query"
code_text bad_fragment = bytes "invalid_upstream_base_url_fragment"

unfoldable pub message_for_expires_at_code : Text → Text
message_for_expires_at_code code =
    if text_eq code err_code_expires_in_past
    then bytes "expires_at must be in the future"
    else if text_eq code err_code_invalid_expires_at
    then bytes "expires_at must be an RFC3339 UTC timestamp"
    else bytes "invalid expires_at"

-- parseExpiresAt: the instant, or a code.
unfoldable pub parse_expires_at : Rfc3339 → Text → ℕ → Try Text ℕ
parse_expires_at clock raw now =
    if text_eq (trim_space raw) []
    then failed err_code_invalid_expires_at
    else elim (clock.parse (trim_space raw)) [
      | none ↦ failed err_code_invalid_expires_at
      | some t ↦ if not (ltb (now + second) t) then failed err_code_expires_in_past else done t
    ]

abbrev pub is_some_and : {A : Type 0} → (A → Bool) → Option A → Bool
is_some_and p none = false
is_some_and p (some a) = p a

abbrev pub out_of_hour : ℤ → Bool
out_of_hour n = negative n || ltb_ℤ max_upstream_timeout_seconds n

module _ {F : Type 0} where
  abbrev pub expires_error : {A : Type 0} → Text → Try (Response F) A
  expires_error code = failed (write_error 400 code (message_for_expires_at_code code))

  abbrev pub some_or_error : Try Text ℕ → Try (Response F) (Option ℕ)
  some_or_error (done t) = done (some t)
  some_or_error (failed code) = expires_error code

  -- The name, trimmed. (The length is that in bytes.)
  unfoldable pub check_name : Text → Text → Try (Response F) Text
  check_name blank raw = do
    let name = trim_space raw
    guard (text_eq name []) (bad_request blank)
    guard (ltb 100 (length name)) (bad_request (bytes "name must be 100 characters or fewer"))
    done name

  abbrev pub base_url_error : {A : Type 0} → UrlCode → Text → Try (Response F) A
  base_url_error code message = failed (write_error 400 (code_text code) message)

  module _ {Ip : Type 0} (net : Net Ip) (url_message : UrlCode → Text) where
    -- A base URL that is there, for a key of the upstream.
    unfoldable pub check_base_url : Text → Text → Try (Response F) Text
    check_base_url upstream raw =
        if not (text_eq upstream upstream_openai)
        then failed (
            write_error 400 invalid_base_url
              (bytes "upstream_base_url is only supported when upstream is 'openai'"))
        else elim (validate net raw) [
          | failed code ↦ base_url_error code (url_message code)
          | done canonical ↦ done canonical
        ]

    unfoldable pub create_base_url : Text → Text → Try (Response F) Text
    create_base_url upstream raw =
        if text_eq (trim_space raw) [] then done [] else check_base_url upstream raw

  unfoldable pub create_expires_at : Rfc3339 → ℕ → Text → Try (Response F) (Option ℕ)
  create_expires_at clock now raw =
      if text_eq (trim_space raw) []
      then done none
      else some_or_error (parse_expires_at clock raw now)

  -- The raw value of the PATCH field: absent, null, or a JSON string. `unquote` is json.Unmarshal
  -- into a string. The Boolean says that the field is cleared.
  unfoldable pub update_expires_at :
      Rfc3339 → (Text → Option Text) → ℕ → Text → Try (Response F) (Option ℕ × Bool)
  update_expires_at clock unquote now [] = done (none, false)
  update_expires_at clock unquote now (c ∷ s) =
      if text_eq (trim_space (c ∷ s)) (bytes "null")
      then done (none, true)
      else if has_prefix (trim_space (c ∷ s)) (b'"' ∷ [])
      then elim (unquote (c ∷ s)) [
        | none ↦ expires_error err_code_invalid_expires_at
        | some t ↦ some_or_error (parse_expires_at clock t now) >>= λ e. done (e, false)
      ]
      else expires_error err_code_invalid_expires_at

  module _ ⦃fl : Float F⦄ where
    open fl use {zero_usd, less}

    -- The checks of handleCreateKey between the name and the base URL.
    unfoldable pub check_create : CreateBody F → Try (Response F) Unit
    check_create b = do
      guard
          (not (text_eq b.upstream upstream_openai) && not (text_eq b.upstream upstream_anthropic))
          (bad_request (bytes "upstream must be 'openai' or 'anthropic'"))
      guard (text_eq (trim_space b.upstream_key) [])
          (bad_request (bytes "upstream_key is required"))
      guard (less b.daily_budget_usd zero_usd || less b.month_budget_usd zero_usd)
          (bad_request (bytes "budgets must be non-negative"))
      guard (negative b.rps_limit || negative b.rpm_limit)
          (bad_request (bytes "rate limits must be non-negative"))
      guard (negative b.max_concurrent) (bad_request (bytes "max_concurrent must be non-negative"))
      guard (out_of_hour b.upstream_timeout_seconds)
          (bad_request (bytes "upstream_timeout_seconds must be between 0 and 3600"))

    -- The checks of handleUpdateKey between the name and the base URL.
    unfoldable pub check_update : UpdateBody F → Try (Response F) Unit
    check_update b = do
      guard
          (is_some_and (λ x. less x zero_usd) b.daily_budget_usd
            || is_some_and (λ x. less x zero_usd) b.month_budget_usd)
          (bad_request (bytes "budgets must be non-negative"))
      guard (is_some_and negative b.rps_limit || is_some_and negative b.rpm_limit)
          (bad_request (bytes "rate limits must be non-negative"))
      guard (is_some_and negative b.max_concurrent)
          (bad_request (bytes "max_concurrent must be non-negative"))
      guard (is_some_and out_of_hour b.upstream_timeout_seconds)
          (bad_request (bytes "upstream_timeout_seconds must be between 0 and 3600"))

  -- A field of the PATCH that must not be there.
  abbrev pub has_immutable : UpdateBody F → Bool
  has_immutable b = b.id || b.token || b.upstream || b.upstream_key || b.created_at || b.revoked_at

  abbrev pub update_name : Option Text → Try (Response F) (Option Text)
  update_name none = done none
  update_name (some raw) = check_name (bytes "name must not be blank") raw >>= λ n. done (some n)

  -- The upstream of the key that a PATCH with a base URL is for.
  abbrev pub upstream_of : Try Fault (VirtualKey F) → Try (Response F) Text
  upstream_of (done k) = done k.upstream
  upstream_of (failed not_found) = failed (refuse 404 (bytes "key not found"))
  upstream_of (failed _) = failed internal_error
