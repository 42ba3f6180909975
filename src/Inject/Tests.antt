-- ===== src/Inject/Tests.antt =====
-- The injection with a small JSON of its own: an object is written as its one streaming form.
use rein.Base.{
  ◌≤◌, ◌≡◌, refl, Bool, true, false, [], ◌∷◌, ◌++◌, none, some, if◌then◌else◌, length, bytes,
  text_eq, Dict, lookup, insert, has_prefix, arith,
}
use rein.Cipher.Toy.{zeros, length-zeros}
use rein.Inject.{
  Json, Outgoing, max_body, is_stream, stream_options, with_usage, inject_stream_usage,
  inject_stream_usage_cut, usage_options, inject_stream_usage-include_usage,
}

-- Flags only, and no codec: every body is malformed.
abbrev no_json : Json Bool
no_json = record {
  as_bool = λ b. some b;
  as_object = λ b. none;
  of_bool = λ b. b;
  of_object = λ o. true;
  unmarshal = λ t. none;
  marshal = λ o. none;
}

abbrev garbled : Outgoing
garbled = record {
  has_body = true;
  is_post = true;
  content_type = bytes "application/json; charset=utf-8";
  body = bytes "{\"stream\":";
  read_fails = false;
}

garbled_typed : has_prefix garbled.content_type (bytes "application/json") ≡ true
unfolding has_prefix bytes
garbled_typed = refl

-- A body of a MiB, and one that is longer by a brace.
abbrev long : Outgoing
long = record garbled { body = zeros max_body }

inject_stream_usage_cut_example :
    inject_stream_usage no_json (record long { body = long.body ++ bytes "}" })
    ≡ inject_stream_usage no_json long
inject_stream_usage_cut_example =
    inject_stream_usage_cut no_json long (bytes "}") refl refl garbled_typed
      (rw (length-zeros max_body) (omega arith))

abbrev plain : Dict Bool
plain = (bytes "stream", true) ∷ []

-- Two bodies, one of them the rewritten other; the one value that is an object has the usage flag.
abbrev two_bodies : Json Bool
two_bodies = record {
  as_bool = λ b. some b;
  as_object = λ b. if b then some ((bytes "include_usage", true) ∷ []) else none;
  of_bool = λ b. b;
  of_object = λ o. true;
  unmarshal = λ t.
      if text_eq t (bytes "{s}")
      then some plain
      else some ((bytes "stream", true) ∷ (bytes "stream_options", true) ∷ []);
  marshal = λ o. some (bytes "{s,u}");
}

abbrev streaming : Outgoing
streaming = record garbled { body = bytes "{s}" }

plain_streams : is_stream two_bodies plain ≡ true
unfolding is_stream lookup text_eq bytes
plain_streams = refl

plain_unset : lookup (bytes "include_usage") (stream_options two_bodies plain) ≡ none
unfolding stream_options lookup text_eq bytes
plain_unset = refl

options_read :
    two_bodies.as_object (two_bodies.of_object (usage_options two_bodies plain))
    ≡ some (usage_options two_bodies plain)
unfolding stream_options lookup insert text_eq bytes
options_read = refl

rewritten_decodes : two_bodies.unmarshal (bytes "{s,u}") ≡ some (with_usage two_bodies plain)
unfolding with_usage stream_options lookup insert text_eq bytes
rewritten_decodes = refl

streaming_decodes : two_bodies.unmarshal (bytes "{s}") ≡ some plain
unfolding text_eq bytes
streaming_decodes = refl

streaming_filled : text_eq (bytes "{s}") [] ≡ false
unfolding text_eq bytes
streaming_filled = refl

streaming_short : length (bytes "{s}") ≤ max_body
unfolding bytes
streaming_short = omega arith

inject_stream_usage-include_usage_example :
    (sent : Dict Bool) × (two_bodies.unmarshal (inject_stream_usage two_bodies streaming).body
      ≡ some sent)
    × ((inject_stream_usage two_bodies streaming).content_length
        ≡ some (length (inject_stream_usage two_bodies streaming).body))
    × (lookup (bytes "include_usage") (stream_options two_bodies sent) ≡ (
        if text_eq (bytes "include_usage") (bytes "include_usage")
        then some true
        else lookup (bytes "include_usage") (stream_options two_bodies plain)))
    × (lookup (bytes "stream") sent ≡ (
        if text_eq (bytes "stream_options") (bytes "stream")
        then some (two_bodies.of_object (stream_options two_bodies sent))
        else lookup (bytes "stream") plain))
inject_stream_usage-include_usage_example =
    inject_stream_usage-include_usage two_bodies streaming plain (bytes "{s,u}")
      (bytes "include_usage") (bytes "stream") options_read rewritten_decodes refl refl
      garbled_typed refl streaming_filled streaming_short streaming_decodes plain_streams
      plain_unset refl
