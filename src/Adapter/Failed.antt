-- ===== src/Adapter/Failed.antt =====
-- internal/proxy/timeout.go and the error handlers of openai.go and anthropic.go, which differ in
-- their log lines only: what the client gets when the upstream call fails before a response.
use rein.Base.{
  ℕ, ◌≡◌, ◌++◌, ◌↔◌, refl, Bool, true, false, Option, none, some, if◌then◌else◌, ℤ, pos, positive,
  pos_part, Text, bytes, arith, inl, inr, Bool-cases,
}
use rein.Keys.{VirtualKey}
use rein.Stream.Reader.{decimal}

-- An error and what it wraps, down to the error that wraps none.
pub data UpstreamError : Type 0 where
  deadline_exceeded canceled other_cause : UpstreamError
  wrapped : UpstreamError → UpstreamError

-- A structured answer has a code, that of http.Error has none.
pub record FailedResponse : Type 0 where
  pub status : ℕ
  pub code : Option Text
  pub retry : Option ℕ
  pub message : Text

-- isUpstreamTimeout: errors.Is on the chain.
unfoldable pub is_upstream_timeout : UpstreamError → Bool
is_upstream_timeout deadline_exceeded = true
is_upstream_timeout canceled = false
is_upstream_timeout other_cause = false
is_upstream_timeout (wrapped e) = is_upstream_timeout e

-- A timeout came somewhere in the chain.
pub data Expired : UpstreamError → Type 0 where
  here : Expired deadline_exceeded
  inside : {e : UpstreamError} → Expired e → Expired (wrapped e)

is_upstream_timeout_iff : (e : UpstreamError) → (is_upstream_timeout e ≡ true) ↔ Expired e
unfolding is_upstream_timeout
is_upstream_timeout_iff e = (found e, there e)
  where
    found : (e : UpstreamError) → is_upstream_timeout e ≡ true → Expired e
    found deadline_exceeded h = here
    found canceled h = absurd (ground arith)
    found other_cause h = absurd (ground arith)
    found (wrapped e) h = inside (found e h)

    there : (e : UpstreamError) → Expired e → is_upstream_timeout e ≡ true
    there deadline_exceeded here = refl
    there canceled h = elim h [ ]
    there other_cause h = elim h [ ]
    there (wrapped e) (inside h) = there e h

unfoldable pub timeout_message : ℤ → Text
timeout_message seconds =
    if positive seconds
    then bytes "upstream request timed out after "
      ++ decimal (pos_part seconds) (pos_part seconds)
      ++ bytes " seconds"
    else bytes "upstream request timed out"

module _ {F : Type 0} where
  abbrev pub timeout_seconds : Option (VirtualKey F) → ℤ
  timeout_seconds none = pos 0
  timeout_seconds (some k) = k.upstream_timeout_seconds

  -- writeUpstreamTimeout
  unfoldable pub write_upstream_timeout : Option (VirtualKey F) → FailedResponse
  unfolding timeout_message
  write_upstream_timeout vkey = record {
    status = 504;
    code = some (bytes "upstream_timeout");
    retry = some 1;
    message = timeout_message (timeout_seconds vkey);
  }

  -- errorHandler
  unfoldable pub error_handler : Option (VirtualKey F) → UpstreamError → FailedResponse
  unfolding is_upstream_timeout write_upstream_timeout
  error_handler vkey e =
      if is_upstream_timeout e
      then write_upstream_timeout vkey
      else record { status = 502; code = none; retry = none; message = bytes "upstream error" }

  -- The client is told to retry after a timeout exactly if the chain of the error has one, and gets
  -- the status 502 for any other error, that of a client that went away included.
  pub error_handler_iff :
      (vkey : Option (VirtualKey F)) (e : UpstreamError)
      → ((error_handler vkey e).status ≡ 504) ↔ Expired e
  unfolding error_handler write_upstream_timeout
  error_handler_iff vkey e = elim (Bool-cases (is_upstream_timeout e)) [
    | inl timed_out ↦
        rw (timed_out, write_upstream_timeout)
          (λ h. (is_upstream_timeout_iff e).0 timed_out, λ h. refl)
    | inr other ↦ (
      λ h. absurd (ground arith),
      λ h. let timed_out = (is_upstream_timeout_iff e).1 h in absurd (ground arith),
    )
  ]
