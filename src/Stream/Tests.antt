-- ===== src/Stream/Tests.antt =====
-- The stream meter on a small stream, with decoders that know one payload.
use rein.Base.{
  ℕ, ◌≤◌, ◌≡◌, ◌++◌, refl, true, false, List, [], ◌∷◌, none, some, if◌then◌else◌, concat, length,
  pos, bytes, Text, text_eq, arith,
}
use rein.Keys.{upstream_openai}
use rein.Stream.{Decoders, cut_line}
use rein.Stream.Lines.{feed, consume_all, consume_all-feed}
use rein.Stream.Reader.{
  BodyRead, eof, failed, build_timeout_trailer, new_usage, new_stream_meter, close, report,
}
use rein.Stream.Delivery.{total_size, chunks_of, read_all, read_all-trailer}

abbrev decoders : Decoders
decoders = record {
  openai_chunk = λ t.
      if text_eq t (bytes "{u}")
      then some (record { model = bytes "m"; usage = some (pos 3, pos 4) })
      else none;
  anthropic_chunk = λ t. none;
}

abbrev two_chunks : List Text
two_chunks = bytes "data: {" ∷ bytes "u}\n" ∷ []

abbrev two_reads : List (ℕ × BodyRead)
two_reads =
    (64, record { chunk = bytes "data: {"; fault = none; deadline_exceeded = false })
    ∷ (64, record { chunk = bytes "u}\n"; fault = some eof; deadline_exceeded = false })
    ∷ []

abbrev cut_read : BodyRead
cut_read = record { chunk = bytes "da"; fault = some failed; deadline_exceeded = true }

abbrev two_buffers : List (ℕ × BodyRead)
two_buffers = (20, cut_read) ∷ (20, cut_read) ∷ []

consume_all-feed_example :
    (consume_all decoders upstream_openai two_chunks ([], new_usage)
      ≡ feed decoders upstream_openai (concat two_chunks) ([], new_usage))
    × (cut_line (consume_all decoders upstream_openai two_chunks ([], new_usage)).0 ≡ none)
consume_all-feed_example = consume_all-feed decoders upstream_openai two_chunks new_usage

trailer_fits : length (build_timeout_trailer (pos 0)) ≤ total_size two_buffers
unfolding build_timeout_trailer total_size bytes
trailer_fits = omega arith

read_all-trailer_example :
    let (s, out) =
      read_all decoders upstream_openai
        (pos 0)
        new_stream_meter
        (two_reads ++ (64, cut_read) ∷ two_buffers) in
    (out ≡ concat (chunks_of two_reads) ++ (bytes "da" ++ build_timeout_trailer (pos 0)))
    × ((close s).1
        ≡ report
            (feed decoders upstream_openai
              (concat (chunks_of two_reads) ++ bytes "da")
              ([], new_usage)).1)
read_all-trailer_example =
    read_all-trailer decoders upstream_openai (pos 0) two_reads two_buffers 64 cut_read
      (refl, (refl, tt)) refl trailer_fits
