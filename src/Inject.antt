-- ===== src/Inject.antt =====
-- internal/proxy/openai.go: injectStreamUsage, which makes a streaming request ask for its usage.
-- encoding/json is a parameter: values of `any` with their type assertions, and the two codecs.
mod Tests
use Prim.Native.Nat.{zero, suc}
use rein.Base.{
  ℕ, ◌≤◌, ◌≡◌, refl, sym, ap, ◌∙◌, Bool, true, false, not, ◌&&◌, ◌||◌, List, [], ◌∷◌, ◌++◌, Option,
  none, some, if◌then◌else◌, is_some, get_or, length, take, take_all, Text, bytes, text_eq,
  text_eq_iff, has_prefix, Dict, lookup, insert, lookup-insert, arith, Bool-cases, Option-cases,
  inl, inr,
}

-- A value of `any`, a JSON object as a map of these.
pub record Json (V : Type 0) : Type 0 where
  pub as_bool : V → Option Bool
  pub as_object : V → Option (Dict V)
  pub of_bool : Bool → V
  pub of_object : Dict V → V
  pub unmarshal : Text → Option (Dict V)
  pub marshal : Dict V → Option Text

-- What the function reads of the outgoing request. `read_fails` is an error of the read of the body.
pub record Outgoing : Type 0 where
  pub has_body : Bool
  pub is_post : Bool
  pub content_type : Text
  pub body : Text
  pub read_fails : Bool

-- What goes upstream: the body, and the Content-Length that is set with it, `none` where that of the
-- client is kept.
pub record Sent : Type 0 where
  pub body : Text
  pub content_length : Option ℕ

-- replaceBody
abbrev pub replace_body : Text → Sent
replace_body b = record { body = b; content_length = some (length b) }

-- const maxBody = 1 << 20
abbrev pub max_body : ℕ
max_body = 1_048_576

take-append : (n : ℕ) (s t : Text) → n ≤ length s → take n (s ++ t) ≡ take n s
unfolding take
take-append zero s t h = refl
take-append (suc n) [] t h = absurd (omega arith)
take-append (suc n) (c ∷ s) t h = ap (λ r. c ∷ r) (take-append n s t (omega arith))

module _ {V : Type 0} (json : Json V) where
  open json use {as_bool, as_object, of_bool, of_object, unmarshal, marshal}

  -- `stream, _ := body["stream"].(bool)`
  unfoldable pub is_stream : Dict V → Bool
  is_stream body = elim (lookup (bytes "stream") body) [
    | none ↦ false
    | some v ↦ get_or (as_bool v) false
  ]

  -- The options, or an empty map.
  unfoldable pub stream_options : Dict V → Dict V
  stream_options body = elim (lookup (bytes "stream_options") body) [
    | none ↦ []
    | some v ↦ get_or (as_object v) []
  ]

  -- The options with `opts["include_usage"] = true`.
  abbrev pub usage_options : Dict V → Dict V
  usage_options body = insert (bytes "include_usage") (of_bool true) (stream_options body)

  unfoldable pub with_usage : Dict V → Dict V
  with_usage body = insert (bytes "stream_options") (of_object (usage_options body)) body

  -- The new body of the request, from the bytes that were read.
  unfoldable pub rewrite_body : Text → Text
  rewrite_body raw = elim (unmarshal raw) [
    | none ↦ raw
    | some body ↦
        if not (is_stream body)
        then raw
        else if is_some (lookup (bytes "include_usage") (stream_options body))
        then raw
        else get_or (marshal (with_usage body)) raw
  ]

  unfoldable pub inject_stream_usage : Outgoing → Sent
  inject_stream_usage r =
      if not r.has_body || not r.is_post
      then record { body = r.body; content_length = none }
      else if not (has_prefix r.content_type (bytes "application/json"))
      then record { body = r.body; content_length = none }
      else (let raw = take max_body r.body in
          if r.read_fails || text_eq raw []
          then record { body = raw; content_length = none }
          else replace_body (rewrite_body raw))

  -- Whatever follows the first MiB of the body of a JSON POST does not go out and changes nothing of
  -- what does, the Content-Length included: the request with any such tail goes out as without it.
  pub inject_stream_usage_cut :
      (r : Outgoing) (tail : Text)
      → r.has_body ≡ true
      → r.is_post ≡ true
      → has_prefix r.content_type (bytes "application/json") ≡ true
      → max_body ≤ length r.body
      → inject_stream_usage (record r { body = r.body ++ tail }) ≡ inject_stream_usage r
  unfolding inject_stream_usage
  inject_stream_usage_cut r tail has post typed long =
      rw (has, post, typed, take-append max_body r.body tail long) refl

  rewritten :
      (raw : Text) (body : Dict V) (out : Text)
      → unmarshal raw ≡ some body
      → is_stream body ≡ true
      → lookup (bytes "include_usage") (stream_options body) ≡ none
      → marshal (with_usage body) ≡ some out
      → rewrite_body raw ≡ out
  unfolding rewrite_body
  rewritten raw body out parsed streams unset made =
      rw (rewrite_body, parsed, streams, unset, made) refl

  lookup-with_usage :
      (body : Dict V) (j : Text)
      → lookup j (with_usage body) ≡ (
          if text_eq (bytes "stream_options") j
          then some (of_object (usage_options body))
          else lookup j body)
  unfolding with_usage
  lookup-with_usage body j = lookup-insert (bytes "stream_options") j _ body

  stream_options-with_usage :
      (body : Dict V)
      → as_object (of_object (usage_options body)) ≡ some (usage_options body)
      → stream_options (with_usage body) ≡ usage_options body
  unfolding with_usage stream_options
  stream_options-with_usage body of_o =
      let self = (text_eq_iff (bytes "stream_options") (bytes "stream_options")).1 refl in
      let put =
        lookup-insert (bytes "stream_options") (bytes "stream_options")
          (of_object (usage_options body)) body in
      options_of _ _ _ (rw self at put) of_o
    where
      options_of :
          (b : Dict V) (v : V) (o : Dict V)
          → lookup (bytes "stream_options") b ≡ some v
          → as_object v ≡ some o
          → stream_options b ≡ o
      options_of b v o e f = rw (stream_options, e, f) refl

  -- A POST of JSON content type with a body that can be read, is not empty, has at most a MiB and is
  -- a JSON object with "stream" true and no include_usage of its own goes out, if the new object
  -- marshals, as an object that asks for the usage, with every other field and every other stream
  -- option as it was, and the Content-Length of its new body; where the new options read as the object
  -- they were made from, and the new body decodes to the object it was encoded from.
  pub inject_stream_usage-include_usage :
      (r : Outgoing) (body : Dict V) (out i j : Text)
      → as_object (of_object (usage_options body)) ≡ some (usage_options body)
      → unmarshal out ≡ some (with_usage body)
      → r.has_body ≡ true
      → r.is_post ≡ true
      → has_prefix r.content_type (bytes "application/json") ≡ true
      → r.read_fails ≡ false
      → text_eq r.body [] ≡ false
      → length r.body ≤ max_body
      → unmarshal r.body ≡ some body
      → is_stream body ≡ true
      → lookup (bytes "include_usage") (stream_options body) ≡ none
      → marshal (with_usage body) ≡ some out
      → (sent : Dict V) × (unmarshal (inject_stream_usage r).body ≡ some sent)
        × ((inject_stream_usage r).content_length ≡ some (length (inject_stream_usage r).body))
        × (lookup i (stream_options sent) ≡ (
            if text_eq (bytes "include_usage") i
            then some (of_bool true)
            else lookup i (stream_options body)))
        × (lookup j sent ≡ (
            if text_eq (bytes "stream_options") j
            then some (of_object (stream_options sent))
            else lookup j body))
  unfolding inject_stream_usage
  inject_stream_usage-include_usage r body out i j of_o codec has post typed fine filled short
        parsed streams unset made =
      let whole = take_all max_body r.body short in
      let sent : rewrite_body r.body ≡ out = rewritten r.body body out parsed streams unset made in
      (
        with_usage body,
        rw (has, post, typed, fine, whole, filled, sent) codec,
        rw (has, post, typed, fine, whole, filled) refl,
        rw (stream_options-with_usage body of_o) (lookup-insert (bytes "include_usage") i _ _),
        rw (stream_options-with_usage body of_o) (lookup-with_usage body j),
      )
