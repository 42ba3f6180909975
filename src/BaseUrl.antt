-- ===== src/BaseUrl.antt =====
-- internal/keys/baseurl.go: the check of a per-key upstream base URL. net/url, net.ParseIP and
-- net.LookupIP are parameters; text is ASCII where it is lowered or trimmed.
pub mod Accepted
mod Tests
use rein.Base.{
  ℕ, ◌+◌, ◌≡◌, Bool, true, false, not, ◌&&◌, ◌||◌, leb, ◌==◌, List, [], ◌∷◌, ◌++◌, Option, none,
  some, if◌then◌else◌, is_some, Text, bytes, text_eq, trim_space, map,
}
use rein.Base.Try.{Try, done, failed}

-- The codes of a BaseURLError.
pub data UrlCode : Type 0 where
  bad_url bad_scheme bad_host bad_query bad_fragment : UrlCode

-- The parts of a url.URL that the check reads. `path` is decoded, as in net/url.
pub record Url : Type 0 where
  pub scheme : Text
  pub user : Option Text
  pub host : Text
  pub hostname : Text
  pub path : Text
  pub raw_query : Text
  pub fragment : Text

pub record Net (Ip : Type 0) : Type 0 where
  pub parse_url : Text → Option Url
  pub parse_ip : Text → Option Ip
  pub lookup_ip : Text → Option (List Ip)
  pub is_loopback : Ip → Bool

abbrev pub lower : ℕ → ℕ
lower c = if leb b'A' c && leb c b'Z' then c + 32 else c

unfoldable pub to_lower : Text → Text
to_lower [] = []
to_lower (c ∷ s) = lower c ∷ to_lower s

abbrev pub slash_cons : ℕ → Text → Text
slash_cons c [] = if c == b'/' then [] else c ∷ []
slash_cons c (d ∷ s) = c ∷ d ∷ s

-- strings.TrimRight(s, "/")
unfoldable pub trim_slashes : Text → Text
trim_slashes [] = []
trim_slashes (c ∷ s) = slash_cons c (trim_slashes s)

abbrev pub https : Text
https = bytes "https"

abbrev pub http : Text
http = bytes "http"

unfoldable pub canonical : Url → Text
unfolding to_lower trim_slashes
canonical u = to_lower u.scheme ++ (bytes "://" ++ (u.host ++ trim_slashes u.path))

module _ {Ip : Type 0} (net : Net Ip) where
  unfoldable pub all_loopback : List Ip → Bool
  all_loopback [] = true
  all_loopback (a ∷ as_) = if net.is_loopback a then all_loopback as_ else false

  abbrev pub lookup_loopback : Option (List Ip) → Bool
  lookup_loopback none = false
  lookup_loopback (some []) = false
  lookup_loopback (some (a ∷ as_)) = all_loopback (a ∷ as_)

  abbrev pub ip_loopback : Option Ip → Bool → Bool
  ip_loopback (some ip) other = net.is_loopback ip
  ip_loopback none other = other

  unfoldable pub is_loopback_host : Text → Bool
  unfolding all_loopback to_lower
  is_loopback_host raw =
      let host = to_lower (trim_space raw) in
      if text_eq host []
      then false
      else if text_eq host (bytes "localhost")
      then true
      else ip_loopback (net.parse_ip host) (lookup_loopback (net.lookup_ip host))

  -- The checks of a URL that parses, in their order.
  unfoldable pub url_fault : Url → Option UrlCode
  unfolding is_loopback_host to_lower
  url_fault u =
      if text_eq u.host []
      then some bad_host
      else if not (text_eq (to_lower u.scheme) https) && not (text_eq (to_lower u.scheme) http)
      then some bad_scheme
      else if not (text_eq u.raw_query [])
      then some bad_query
      else if not (text_eq u.fragment [])
      then some bad_fragment
      else if is_some u.user
      then some bad_host
      else if text_eq (to_lower u.scheme) http && not (is_loopback_host u.hostname)
      then some bad_scheme
      else none

  unfoldable pub check_url : Url → Try UrlCode Text
  unfolding url_fault canonical
  check_url u = elim (url_fault u) [ some e ↦ failed e | none ↦ done (canonical u) ]

  -- ValidateUpstreamBaseURL
  unfoldable pub validate : Text → Try UrlCode Text
  unfolding check_url
  validate raw =
      if text_eq (trim_space raw) []
      then failed bad_url
      else elim (net.parse_url (trim_space raw)) [ none ↦ failed bad_url | some u ↦ check_url u ]
