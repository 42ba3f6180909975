-- ===== src/BaseUrl/Tests.antt =====
-- The check of a base URL whose path decodes to one with a question mark.
use rein.Base.{
  ℕ, ◌≡◌, refl, false, [], ◌∷◌, ◌++◌, none, some, if◌then◌else◌, Text, bytes, text_eq, trim_space,
}
use rein.Base.Try.{done}
use rein.BaseUrl.{
  https, Url, Net, to_lower, trim_slashes, url_fault, canonical, check_url, validate,
}
use rein.BaseUrl.Accepted.{IsAccepted, validate-IsAccepted, validate_query}

-- What net/url says of `https://h/a%3Fb`.
abbrev asked : Url
asked = record {
  scheme = bytes "https";
  user = none;
  host = bytes "h";
  hostname = bytes "h";
  path = bytes "/a?b";
  raw_query = [];
  fragment = [];
}

abbrev raw : Text
raw = bytes "https://h/a%3Fb"

abbrev net : Net ℕ
net = record {
  parse_url = λ t. if text_eq t raw then some asked else none;
  parse_ip = λ t. none;
  lookup_ip = λ t. none;
  is_loopback = λ a. false;
}

accepted : validate net raw ≡ done (bytes "https://h/a?b")
unfolding validate check_url url_fault canonical to_lower trim_slashes trim_space text_eq bytes
accepted = refl

validate-IsAccepted_example :
    (u : Url) × (net.parse_url (trim_space raw) ≡ some u)
    × IsAccepted net u
    × (bytes "https://h/a?b"
        ≡ to_lower u.scheme ++ (bytes "://" ++ (u.host ++ trim_slashes u.path)))
validate-IsAccepted_example = validate-IsAccepted net raw (bytes "https://h/a?b") accepted

given : text_eq (trim_space raw) [] ≡ false
unfolding text_eq trim_space bytes
given = refl

parsed : net.parse_url (trim_space raw) ≡ some asked
unfolding text_eq trim_space bytes
parsed = refl

safe : to_lower asked.scheme ≡ https
unfolding to_lower bytes
safe = refl

hosted : text_eq asked.host [] ≡ false
unfolding text_eq bytes
hosted = refl

split : bytes "/a?b" ≡ bytes "/a" ++ b'?' ∷ bytes "b"
unfolding bytes
split = refl

validate_query_example :
    validate net raw
    ≡ done
        (https ++ (bytes "://" ++ (bytes "h" ++ (bytes "/a" ++ b'?' ∷ trim_slashes (bytes "b")))))
validate_query_example =
    validate_query net raw asked (bytes "/a") (bytes "b") given parsed safe hosted refl refl refl
      split
