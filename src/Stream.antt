-- ===== src/Stream.antt =====
-- internal/proxy/stream.go: the meter around the body of a streamed response. The body is not part of
-- the model: a read of it is an input, with what it returns. The two JSON decoders are parameters.
pub mod Lines
pub mod Reader
pub mod Delivery
pub mod Digits
mod Tests
use rein.Base.{
  ℕ, zero, suc, ◌+◌, ◌/◌, ◌%◌, Bool, true, false, not, ◌&&◌, ◌||◌, ltb, ◌==◌, List, [], ◌∷◌, ◌++◌,
  Option, none, some, if◌then◌else◌, is_some, length, ℤ, pos, negsuc, positive, pos_part, Text,
  bytes, text_eq, cut_prefix, trim_space,
}
use rein.Keys.{upstream_openai, upstream_anthropic}

-- The fields that the parsers write.
pub record Usage : Type 0 where
  pub model : Text
  pub input_tok : ℤ
  pub output_tok : ℤ

pub record OpenaiChunk : Type 0 where
  pub model : Text
  -- prompt_tokens and completion_tokens.
  pub usage : Option (ℤ × ℤ)

pub record AnthropicMessage : Type 0 where
  pub model : Text
  -- input_tokens and output_tokens, here and below.
  pub usage : Option (ℤ × ℤ)

pub record AnthropicChunk : Type 0 where
  pub kind : Text
  pub message : Option AnthropicMessage
  pub usage : Option (ℤ × ℤ)

-- `json.Unmarshal` into the two chunk types: `none` is an error.
pub record Decoders : Type 0 where
  pub openai_chunk : Text → Option OpenaiChunk
  pub anthropic_chunk : Text → Option AnthropicChunk

abbrev pub newline : ℕ
newline = 10

abbrev pub carriage_return : ℕ
carriage_return = 13

-- `bytes.TrimRight(line, "\r")`
unfoldable pub trim_right_cr : Text → Text
trim_right_cr [] = []
trim_right_cr (c ∷ s) =
    let rest = trim_right_cr s in if c == carriage_return && text_eq rest [] then [] else c ∷ rest

abbrev pub set_tokens : Option (ℤ × ℤ) → Usage → Usage
set_tokens none u = u
set_tokens (some (i, o)) u = record u { input_tok = i; output_tok = o }

unfoldable pub take_openai : OpenaiChunk → Usage → Usage
take_openai chunk u = set_tokens chunk.usage (
    if text_eq u.model [] && not (text_eq chunk.model [])
    then record u { model = chunk.model }
    else u)

-- message_start
unfoldable pub take_message : Option AnthropicMessage → Usage → Usage
take_message none u = u
take_message (some msg) u =
    set_tokens msg.usage (if text_eq msg.model [] then u else record u { model = msg.model })

-- message_delta
unfoldable pub take_delta : Option (ℤ × ℤ) → Usage → Usage
take_delta none u = u
take_delta (some (i, o)) u = if positive o then record u { output_tok = o } else u

unfoldable pub take_anthropic : AnthropicChunk → Usage → Usage
take_anthropic chunk u =
    if text_eq chunk.kind (bytes "message_start")
    then take_message chunk.message u
    else if text_eq chunk.kind (bytes "message_delta")
    then take_delta chunk.usage u
    else u

module _ (json : Decoders) (upstream : Text) where
  unfoldable pub parse_openai : Text → Usage → Usage
  parse_openai payload u = elim (json.openai_chunk payload) [
    | none ↦ u
    | some chunk ↦ take_openai chunk u
  ]

  unfoldable pub parse_anthropic : Text → Usage → Usage
  parse_anthropic payload u = elim (json.anthropic_chunk payload) [
    | none ↦ u
    | some chunk ↦ take_anthropic chunk u
  ]

  unfoldable pub parse_payload : Text → Usage → Usage
  parse_payload payload u =
      if text_eq payload [] || text_eq payload (bytes "[DONE]")
      then u
      else if text_eq upstream upstream_openai
      then parse_openai payload u
      else if text_eq upstream upstream_anthropic
      then parse_anthropic payload u
      else u

  unfoldable pub parse_line : Text → Usage → Usage
  parse_line line u = elim (cut_prefix line (bytes "data: ")) [
    | none ↦ u
    | some rest ↦ parse_payload (trim_space rest) u
  ]

-- The bytes before the first newline, and those after it.
unfoldable pub cut_line : Text → Option (Text × Text)
cut_line [] = none
cut_line (c ∷ s) =
    if c == newline
    then some ([], s)
    else elim (cut_line s) [ none ↦ none | some (line, rest) ↦ some (c ∷ line, rest) ]

module _ (json : Decoders) (upstream : Text) where
  -- The loop of `consume`, on the bytes of `partial`. Each turn takes a byte at least, so the number
  -- of bytes is fuel enough.
  unfoldable pub consume_lines : ℕ → Text → Usage → Text × Usage
  consume_lines zero partial u = (partial, u)
  consume_lines (suc fuel) partial u = elim (cut_line partial) [
    | none ↦ (partial, u)
    | some (line, rest) ↦ consume_lines fuel rest (parse_line json upstream (trim_right_cr line) u)
  ]

  unfoldable pub consume : Text → Text × Usage → Text × Usage
  consume chunk (partial, u) = consume_lines (length (partial ++ chunk)) (partial ++ chunk) u
