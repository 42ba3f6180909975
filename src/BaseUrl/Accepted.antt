-- ===== src/BaseUrl/Accepted.antt =====
-- What is known of a base URL that is accepted.
use rein.Base.{
  ℕ, ◌≡◌, refl, sym, true, false, ◌==◌, List, [], ◌∷◌, ◌++◌, Option, none, some, Text, bytes,
  text_eq, text_eq_iff, trim_space, ◌⊎◌, inl, inr, arith, Bool-cases, Option-cases, All,
}
use rein.Base.Try.{done}
use rein.BaseUrl.{
  Url, Net, to_lower, trim_slashes, slash_cons, https, http, all_loopback, lookup_loopback,
  is_loopback_host, url_fault, canonical, check_url, validate,
}

slash_cons_more : (d : ℕ) (a s : Text) (c : ℕ) → slash_cons d (a ++ c ∷ s) ≡ d ∷ (a ++ c ∷ s)
slash_cons_more d [] s c = refl
slash_cons_more d (x ∷ a) s c = refl

slash_cons_other : (c : ℕ) (s : Text) → (c == b'/') ≡ false → slash_cons c s ≡ c ∷ s
slash_cons_other c [] h = rw h refl
slash_cons_other c (d ∷ s) h = refl

trim_slashes-cons :
    (c : ℕ) (s : Text) → (c == b'/') ≡ false → trim_slashes (c ∷ s) ≡ c ∷ trim_slashes s
unfolding trim_slashes
trim_slashes-cons c s h = slash_cons_other c (trim_slashes s) h

trim_slashes-append :
    (a : Text) (c : ℕ) (s : Text)
    → (c == b'/') ≡ false
    → trim_slashes (a ++ c ∷ s) ≡ a ++ c ∷ trim_slashes s
unfolding trim_slashes
trim_slashes-append [] c s h = trim_slashes-cons c s h
trim_slashes-append (d ∷ a) c s h =
    rw (trim_slashes-append a c s h) (slash_cons_more d a (trim_slashes s) c)

https-http : text_eq https http ≡ false
unfolding text_eq bytes
https-http = refl

module _ {Ip : Type 0} (net : Net Ip) where
  abbrev pub IsLocal : Ip → Type 0
  IsLocal a = net.is_loopback a ≡ true

  all_loopback-All : (as_ : List Ip) → all_loopback net as_ ≡ true → All IsLocal as_
  unfolding all_loopback
  all_loopback-All [] h = tt
  all_loopback-All (a ∷ as_) h = elim (Bool-cases (net.is_loopback a)) [
    | inl local ↦ (local, all_loopback-All as_ (rw local at h))
    | inr remote ↦ absurd (ground arith)
  ]

  -- How a host is known to be local: by its name, as an address, or by a lookup, of which it has an
  -- answer and every address is local.
  pub data Local (host : Text) : Type 0 where
    by_name : host ≡ bytes "localhost" → Local host
    by_address : (ip : Ip) → net.parse_ip host ≡ some ip → IsLocal ip → Local host
    by_lookup :
        (a : Ip) (as_ : List Ip)
        → net.parse_ip host ≡ none
        → net.lookup_ip host ≡ some (a ∷ as_)
        → All IsLocal (a ∷ as_)
        → Local host

  lookup_Local :
      (host : Text)
      → net.parse_ip host ≡ none
      → (o : Option (List Ip)) → net.lookup_ip host ≡ o
      → lookup_loopback net o ≡ true
      → Local host
  lookup_Local host p none e h = absurd (ground arith)
  lookup_Local host p (some []) e h = absurd (ground arith)
  lookup_Local host p (some (a ∷ as_)) e h = by_lookup a as_ p e (all_loopback-All (a ∷ as_) h)

  pub is_loopback_host-Local :
      (raw : Text) → is_loopback_host net raw ≡ true → Local (to_lower (trim_space raw))
  unfolding is_loopback_host
  is_loopback_host-Local raw h = elim (Bool-cases (text_eq (to_lower (trim_space raw)) [])) [
    | inl empty ↦ absurd (ground arith)
    | inr named ↦ elim (Bool-cases (text_eq (to_lower (trim_space raw)) (bytes "localhost"))) [
      | inl own ↦ by_name ((text_eq_iff _ _).0 own)
      | inr other ↦ elim (Option-cases (net.parse_ip (to_lower (trim_space raw)))) [
        | inr (ip, read) ↦ by_address ip read (rw (named, other, read) at h)
        | inl no_ip ↦ lookup_Local _ no_ip _ refl (rw (named, other, no_ip) at h)
      ]
    ]
  ]

  -- A URL that the checks pass.
  pub record IsAccepted (u : Url) : Type 0 where
    pub has_host : text_eq u.host [] ≡ false
    pub no_query : u.raw_query ≡ []
    pub no_fragment : u.fragment ≡ []
    pub no_user : u.user ≡ none
    pub secure :
        (to_lower u.scheme ≡ https)
        ⊎ ((to_lower u.scheme ≡ http) × Local (to_lower (trim_space u.hostname)))

  url_fault-IsAccepted : (u : Url) → url_fault net u ≡ none → IsAccepted u
  unfolding url_fault
  url_fault-IsAccepted u h = record {
    has_host = ground arith;
    no_query = (text_eq_iff u.raw_query []).0 (ground arith);
    no_fragment = (text_eq_iff u.fragment []).0 (ground arith);
    no_user = elim (Option-cases u.user) [
      | inl without ↦ without
      | inr (s, given) ↦ absurd (ground (arith, given))
    ];
    secure = elim (Bool-cases (text_eq (to_lower u.scheme) https)) [
      | inl safe ↦ inl ((text_eq_iff _ _).0 safe)
      | inr plain ↦
          let is_http : text_eq (to_lower u.scheme) http ≡ true = ground arith in
          let local : is_loopback_host net u.hostname ≡ true = ground arith in
          inr ((text_eq_iff _ _).0 is_http, is_loopback_host-Local u.hostname local)
    ];
  }

  -- A base URL that is accepted is what the parser reads from the trimmed text: its host part, a port
  -- included, is not empty, and it has no
  -- query, fragment or user, its scheme is https, or http for a host that is local by its name, as an
  -- address, or by a lookup all of whose addresses are local; and the text to store is the scheme in
  -- lower case, the host as it was, and the decoded path less the slashes at its end.
  pub validate-IsAccepted :
      (raw c : Text)
      → validate net raw ≡ done c
      → (u : Url) × (net.parse_url (trim_space raw) ≡ some u)
        × IsAccepted u
        × (c ≡ to_lower u.scheme ++ (bytes "://" ++ (u.host ++ trim_slashes u.path)))
  unfolding validate check_url canonical
  validate-IsAccepted raw c h = elim (Bool-cases (text_eq (trim_space raw) [])) [
    | inl empty ↦ absurd (ground arith)
    | inr given ↦ elim (Option-cases (net.parse_url (trim_space raw))) [
      | inl bad ↦ absurd (ground arith)
      | inr (u, read) ↦ elim (Option-cases (url_fault net u)) [
        | inr (e, fault) ↦ absurd (ground arith)
        | inl none_ ↦
            let made : canonical u ≡ c = ground arith in
            (u, read, url_fault-IsAccepted u none_, sym made)
      ]
    ]
  ]

  url_fault_plain :
      (u : Url)
      → to_lower u.scheme ≡ https
      → text_eq u.host [] ≡ false
      → u.raw_query ≡ []
      → u.fragment ≡ []
      → u.user ≡ none
      → url_fault net u ≡ none
  unfolding url_fault
  url_fault_plain u safe host query fragment user =
      let safe_text : text_eq (to_lower u.scheme) https ≡ true = (text_eq_iff _ _).1 safe in
      let no_query : text_eq u.raw_query [] ≡ true = (text_eq_iff _ _).1 query in
      let no_fragment : text_eq u.fragment [] ≡ true = (text_eq_iff _ _).1 fragment in
      let not_http : text_eq (to_lower u.scheme) http ≡ false = rw safe https-http in
      rw (host, safe_text, no_query, no_fragment, user, not_http) refl

  -- A base URL that parses with the scheme https, a host, no user, query or fragment, and a path that
  -- decodes to one with a question mark, is accepted, and the text to store has the question mark
  -- after the host and the first part of the path.
  pub validate_query :
      (raw : Text) (u : Url) (before after : Text)
      → text_eq (trim_space raw) [] ≡ false
      → net.parse_url (trim_space raw) ≡ some u
      → to_lower u.scheme ≡ https
      → text_eq u.host [] ≡ false
      → u.raw_query ≡ []
      → u.fragment ≡ []
      → u.user ≡ none
      → u.path ≡ before ++ b'?' ∷ after
      → validate net raw
        ≡ done (https ++ (bytes "://" ++ (u.host ++ (before ++ b'?' ∷ trim_slashes after))))
  unfolding validate check_url canonical
  validate_query raw u before after given read safe host query fragment user path =
      let fine = url_fault_plain u safe host query fragment user in
      rw
        (
          given,
          read,
          check_url,
          fine,
          canonical,
          safe,
          path,
          trim_slashes-append before b'?' after refl,
        )
        refl
