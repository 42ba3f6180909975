-- ===== src/Stream/Reader.antt =====
-- `Read` and `Close` of the meter: the trailer of a timeout, and the report at the end.
use rein.Base.{
  ℕ, zero, suc, ◌+◌, ◌/◌, ◌%◌, Bool, true, false, ◌||◌, ltb, [], ◌∷◌, ◌++◌, Option, none, some,
  if◌then◌else◌, length, take, drop, ℤ, pos, positive, pos_part, Text, bytes,
}
use rein.Stream.{Usage, Decoders, consume}

-- The error of a read: io.EOF, or another.
pub data ReadError : Type 0 where
  eof failed : ReadError

pub record StreamMeter : Type 0 where
  pub partial : Text
  pub usage : Usage
  pub reported : Bool
  pub pending : Text
  pub ended : Bool

-- `%d` of a number that is not negative, with fuel for one digit at each turn.
unfoldable pub decimal : ℕ → ℕ → Text
decimal zero n = []
decimal (suc fuel) n =
    let rest = decimal fuel (n / 10) in
    if ltb n 10 then (48 + n) ∷ [] else rest ++ (48 + n % 10) ∷ []

unfoldable pub build_timeout_trailer : ℤ → Text
build_timeout_trailer seconds =
    if positive seconds
    then bytes ": rein upstream timeout after "
      ++ decimal (pos_part seconds) (pos_part seconds)
      ++ bytes " seconds\n\n"
    else bytes ": rein upstream timeout\n\n"

-- What a read of the underlying body returns.
pub record BodyRead : Type 0 where
  pub chunk : Text
  pub fault : Option ReadError
  -- Whether the context's error is DeadlineExceeded after the read.
  pub deadline_exceeded : Bool

module _ (json : Decoders) (upstream : Text) (seconds : ℤ) where
  -- The part of `Read` after the underlying read.
  unfoldable pub read_body : StreamMeter → BodyRead → StreamMeter × Text × Option ReadError
  read_body s b =
      let (partial', usage') = consume json upstream b.chunk (s.partial, s.usage) in
      let s' = record s { partial = partial'; usage = usage' } in
      elim b.fault [
        | none ↦ (s', b.chunk, none)
        | some e ↦
            if b.deadline_exceeded
            then (
              record s' { pending = build_timeout_trailer seconds; ended = true },
              b.chunk,
              none,
            )
            else (s', b.chunk, some e)
      ]

  -- `Read` into a buffer of `size` bytes. The underlying body is read only in the last case.
  unfoldable pub read : StreamMeter → ℕ → BodyRead → StreamMeter × Text × Option ReadError
  read s size b =
      if ltb 0 (length s.pending)
      then (let rest = drop size s.pending in
          (
            record s { pending = rest },
            take size s.pending,
            if ltb 0 (length rest) then none else some eof,
          ))
      else if s.ended
      then (s, [], some eof)
      else read_body s b

-- `Close`: the callback's argument, if it is called.
unfoldable pub close : StreamMeter → StreamMeter × Option Usage
close s = if s.reported then (s, none) else (
  record s { reported = true },
  if positive s.usage.input_tok || positive s.usage.output_tok then some s.usage else none,
)

-- What the parser keeps.
abbrev pub parsed : StreamMeter → Text × Usage
parsed s = (s.partial, s.usage)

abbrev pub new_usage : Usage
new_usage = record { model = []; input_tok = pos 0; output_tok = pos 0 }

abbrev pub new_stream_meter : StreamMeter
new_stream_meter = record {
  partial = [];
  usage = new_usage;
  reported = false;
  pending = [];
  ended = false;
}

-- The argument of the callback of a `Close` of a meter that parsed a text.
abbrev pub report : Usage → Option Usage
report u = if positive u.input_tok || positive u.output_tok then some u else none
