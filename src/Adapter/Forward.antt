-- ===== src/Adapter/Forward.antt =====
-- internal/proxy: `rewrite` of the two adapters and the cache of base URLs of openai.go. Headers are a
-- map from their canonical names to one value each. url.Parse is a parameter; `SetURL`, which joins
-- the paths, is net/http's, so the model gives the target that it is called with.
use rein.Base.{
  ◌≡◌, refl, ◌||◌, List, [], ◌∷◌, ◌++◌, map, Option, none, some, if◌then◌else◌, get_or, Text, bytes,
  text_eq, text_eq_iff, Dict, lookup, insert, lookup-insert, arith, Bool-cases, Option-cases, inl,
  inr,
}
use rein.Keys.{VirtualKey}

pub record Url : Type 0 where
  pub scheme : Text
  pub host : Text
  pub path : Text

-- The parsed URL, if it has a scheme and a host.
unfoldable pub usable : (Text → Option Url) → Text → Option Url
usable parse raw = elim (parse raw) [
  | none ↦ none
  | some u ↦ if text_eq u.scheme [] || text_eq u.host [] then none else some u
]

-- lookupOverrideURL: the cache holds a parsed URL, or `none` for a value that is none.
unfoldable pub lookup_override_url :
    (Text → Option Url) → Dict (Option Url) → Text → Dict (Option Url) × Option Url
lookup_override_url parse cache raw = elim (lookup raw cache) [
  | some cached ↦ (cache, cached)
  | none ↦ (insert raw (usable parse raw) cache, usable parse raw)
]

-- `Header.Del`
unfoldable pub remove : Text → Dict Text → Dict Text
remove name [] = []
remove name ((j, v) ∷ h) =
    let rest = remove name h in if text_eq j name then rest else (j, v) ∷ rest

abbrev pub authorization : Text
authorization = bytes "Authorization"

-- An outgoing request: its target, with the host of that, and its headers.
pub record Rewritten : Type 0 where
  pub target : Url
  pub headers : Dict Text

unfoldable pub with_version : Dict Text → Dict Text
with_version h =
    if text_eq (get_or (lookup (bytes "Anthropic-Version") h) []) []
    then insert (bytes "Anthropic-Version") (bytes "2023-06-01") h
    else h

module _ {F : Type 0} where
  -- The target, and the cache, for the key on the context.
  unfoldable pub choose_target :
      (Text → Option Url)
      → Url
      → Dict (Option Url)
      → Option (VirtualKey F)
      → Dict (Option Url) × Url
  choose_target parse base cache none = (cache, base)
  choose_target parse base cache (some k) =
      if text_eq k.upstream_base_url []
      then (cache, base)
      else (let (cache', override) = lookup_override_url parse cache k.upstream_base_url in
          (cache', get_or override base))

  unfoldable pub openai_headers : Option (VirtualKey F) → Dict Text → Dict Text
  openai_headers none h = h
  openai_headers (some k) h = insert authorization (bytes "Bearer " ++ k.upstream_key) h

  -- OpenAI.rewrite, the body apart.
  unfoldable pub openai_rewrite :
      (Text → Option Url)
      → Url
      → Dict (Option Url)
      → Option (VirtualKey F)
      → Dict Text
      → Dict (Option Url) × Rewritten
  openai_rewrite parse base cache vk h =
      let (cache', target) = choose_target parse base cache vk in
      (cache', record { target = target; headers = openai_headers vk h })

  abbrev pub with_api_key : Option (VirtualKey F) → Dict Text → Dict Text
  with_api_key none h = h
  with_api_key (some k) h = insert (bytes "X-Api-Key") k.upstream_key h

  -- Anthropic.rewrite
  unfoldable pub anthropic_rewrite : Url → Option (VirtualKey F) → Dict Text → Rewritten
  anthropic_rewrite base vk h = record {
    target = base;
    headers = with_version (with_api_key vk (remove authorization h));
  }

-- Each cached value is what parsing gives.
abbrev IsTrue : (Text → Option Url) → Dict (Option Url) → Type 0
IsTrue parse cache =
    (raw : Text) (cached : Option Url) → lookup raw cache ≡ some cached → cached ≡ usable parse raw

lookup_override_url-IsTrue :
    (parse : Text → Option Url) (cache : Dict (Option Url)) (raw : Text)
    → IsTrue parse cache
    → ((lookup_override_url parse cache raw).1 ≡ usable parse raw)
      × IsTrue parse (lookup_override_url parse cache raw).0
unfolding lookup_override_url
lookup_override_url-IsTrue parse cache raw v = elim (Option-cases (lookup raw cache)) [
  | inr (cached, hit) ↦ rw (lookup_override_url, hit) (v raw cached hit, v)
  | inl miss ↦
      rw (lookup_override_url, miss)
        (
          refl,
          λ j cached e. elim (Bool-cases (text_eq raw j)) [
            | inl same ↦
                let is : raw ≡ j = (text_eq_iff raw j).0 same in
                let found : some (usable parse raw) ≡ some cached =
                  ground (arith, lookup-insert raw j (usable parse raw) cache) in
                ground (arith, found, is)
            | inr other ↦ v j cached (ground (arith, lookup-insert raw j (usable parse raw) cache))
          ],
        )
]

module _ {F : Type 0} (parse : Text → Option Url) (base : Url) where
  -- The targets of requests for keys, one after another, with the cache that they share.
  unfoldable pub targets : Dict (Option Url) → List (Option (VirtualKey F)) → List Url
  targets cache [] = []
  targets cache (vk ∷ vks) =
      let (cache', target) = choose_target parse base cache vk in target ∷ targets cache' vks

  -- The target of a request with no cache.
  unfoldable pub direct_target : Option (VirtualKey F) → Url
  direct_target none = base
  direct_target (some k) =
      if text_eq k.upstream_base_url []
      then base
      else get_or (usable parse k.upstream_base_url) base

  choose_target-direct :
      (cache : Dict (Option Url)) (vk : Option (VirtualKey F))
      → IsTrue parse cache
      → ((choose_target parse base cache vk).1 ≡ direct_target vk)
        × IsTrue parse (choose_target parse base cache vk).0
  unfolding choose_target direct_target
  choose_target-direct cache none v = (refl, v)
  choose_target-direct cache (some k) v = elim (Bool-cases (text_eq k.upstream_base_url [])) [
    | inl unset ↦ rw unset (refl, v)
    | inr set ↦
        let (hit, w) = lookup_override_url-IsTrue parse cache k.upstream_base_url v in
        rw (set, hit) (refl, w)
  ]

  targets-IsTrue :
      (vks : List (Option (VirtualKey F))) (cache : Dict (Option Url))
      → IsTrue parse cache
      → targets cache vks ≡ map direct_target vks
  unfolding targets
  targets-IsTrue [] cache v = refl
  targets-IsTrue (vk ∷ vks) cache v =
      let (same, w) = choose_target-direct cache vk v in
      rw (same, targets-IsTrue vks (choose_target parse base cache vk).0 w) refl

  -- Over any requests from the start, the cache of base URLs changes no target: each goes to the URL
  -- of its key if that parses with a scheme and a host, and else to the adapter's own.
  pub targets-direct : (vks : List (Option (VirtualKey F))) → targets [] vks ≡ map direct_target vks
  unfolding lookup
  targets-direct vks = targets-IsTrue vks [] (λ raw cached e. absurd (ground arith))

remove-insert : (name v : Text) (h : Dict Text) → remove name (insert name v h) ≡ remove name h
unfolding remove insert
remove-insert name v [] = ground (arith, text_eq_iff name name)
remove-insert name v ((j, w) ∷ h) = ground (arith, text_eq_iff name name, remove-insert name v h)

insert_twice : (name v w : Text) (h : Dict Text) → insert name w (insert name v h) ≡ insert name w h
unfolding insert
insert_twice name v w [] = ground (arith, text_eq_iff name name)
insert_twice name v w ((j, x) ∷ h) = ground (arith, text_eq_iff name name, insert_twice name v w h)

-- Whatever the client sends as its Authorization, what the OpenAI adapter sends for a key, and the
-- Anthropic adapter with a key or without, is what it sends for a request without that header: so
-- nothing of the virtual key's token goes upstream with it.
pub rewrite-authorization :
    {F : Type 0} (parse : Text → Option Url) (base : Url) (cache : Dict (Option Url))
    (k : VirtualKey F) (vk : Option (VirtualKey F)) (token : Text) (h : Dict Text)
    → (openai_rewrite parse base cache (some k) (insert authorization token h)
        ≡ openai_rewrite parse base cache (some k) h)
      × (anthropic_rewrite base vk (insert authorization token h) ≡ anthropic_rewrite base vk h)
unfolding openai_rewrite openai_headers anthropic_rewrite
rewrite-authorization parse base cache k vk token h = (
  rw (insert_twice authorization token (bytes "Bearer " ++ k.upstream_key) h) refl,
  rw (remove-insert authorization token h) refl,
)
