-- ===== src/Stream/Delivery.antt =====
-- What the client gets of a stream, and what is reported of it: whole runs of reads, and `Close`.
use rein.Base.{
  ℕ, ◌+◌, ◌≤◌, ◌≡◌, refl, sym, ap, ◌∙◌, true, false, ◌&&◌, ltb, List, [], ◌∷◌, ◌++◌, none, is_some,
  length, concat, take, drop, take-drop, take_all, drop_empty, append_assoc, ℤ, Text, arith,
  Bool-cases, Option-cases, inl, inr,
}
use rein.Stream.{Decoders, consume}
use rein.Stream.Lines.{feed, consume_all, consume_all-feed, consume-consume_all}
use rein.Stream.Reader.{
  StreamMeter, build_timeout_trailer, BodyRead, read_body, read, close, parsed, new_usage,
  new_stream_meter, report,
}

-- The sizes of some reads added up, and the bytes of the underlying ones put together.
unfoldable pub total_size : List (ℕ × BodyRead) → ℕ
total_size [] = 0
total_size ((size, b) ∷ es) = size + total_size es

unfoldable pub chunks_of : List (ℕ × BodyRead) → List Text
chunks_of [] = []
chunks_of ((size, b) ∷ es) = b.chunk ∷ chunks_of es

-- No read of the body fails at the deadline.
abbrev pub InTime : List (ℕ × BodyRead) → Type 0
InTime [] = Unit {0}
InTime ((size, b) ∷ es) = ((is_some b.fault && b.deadline_exceeded) ≡ false) × InTime es

empty_of_length : (xs : Text) → length xs ≡ 0 → xs ≡ []
empty_of_length [] z = refl
empty_of_length (x ∷ xs) z = absurd (omega arith)

module _ (json : Decoders) (upstream : Text) (seconds : ℤ) where
  -- The bytes that a list of reads gives to the client.
  unfoldable pub read_all : StreamMeter → List (ℕ × BodyRead) → StreamMeter × Text
  read_all s [] = (s, [])
  read_all s ((size, b) ∷ es) =
      let (s', out, fault) = read json upstream seconds s size b in
      let (end, rest) = read_all s' es in (end, out ++ rest)

  read-ended :
      (s : StreamMeter) (size : ℕ) (b : BodyRead)
      → s.ended ≡ true
      → let (s', out, fault) = read json upstream seconds s size b in
        (out ≡ take size s.pending)
        × (s'.pending ≡ drop size s.pending)
        × (s'.ended ≡ true)
        × (s'.usage ≡ s.usage)
        × (s'.reported ≡ s.reported)
  unfolding read
  read-ended s size b e = elim (Bool-cases (ltb 0 (length s.pending))) [
    | inl more ↦ rw more (refl, refl, e, refl, refl)
    | inr done ↦
        let z : length s.pending ≡ 0 = ground arith in
        let gone : s.pending ≡ [] = empty_of_length s.pending z in
        rw (done, e)
          (
            sym (take_all size s.pending (omega arith) ∙ gone),
            sym (drop_empty size s.pending z),
            refl,
            refl,
            refl,
          )
  ]

  read_all-ended :
      (es : List (ℕ × BodyRead)) (s : StreamMeter)
      → s.ended ≡ true
      → ((read_all s es).1 ≡ take (total_size es) s.pending)
        × ((read_all s es).0.usage ≡ s.usage)
        × ((read_all s es).0.reported ≡ s.reported)
  unfolding read_all total_size take
  read_all-ended [] s e = (refl, refl, refl)
  read_all-ended ((size, b) ∷ es) s e =
      let s' = (read json upstream seconds s size b).0 in
      let (out, left, ended, kept, unreported) = read-ended s size b e in
      let (outs, kepts, unreporteds) = read_all-ended es s' ended in
      (
        rw (out, outs, left) (take-drop size (total_size es) s.pending),
        kepts ∙ kept,
        unreporteds ∙ unreported,
      )

  read-body :
      (s : StreamMeter) (size : ℕ) (b : BodyRead)
      → s.pending ≡ []
      → s.ended ≡ false
      → read json upstream seconds s size b ≡ read_body json upstream seconds s b
  unfolding read
  read-body s size b p e = rw (p, e) refl

  -- The meter after a read of the body, the deadline apart.
  abbrev teed : StreamMeter → BodyRead → StreamMeter
  teed s b =
      let (partial', usage') = consume json upstream b.chunk (parsed s) in
      record s { partial = partial'; usage = usage' }

  read_body-InTime :
      (s : StreamMeter) (b : BodyRead)
      → (is_some b.fault && b.deadline_exceeded) ≡ false
      → read_body json upstream seconds s b ≡ (teed s b, b.chunk, b.fault)
  unfolding read_body
  read_body-InTime s b i = elim (Option-cases b.fault) [
    | inl fine ↦ rw fine refl
    | inr (x, fault) ↦
        let early : b.deadline_exceeded ≡ false = ground arith in rw (fault, early) refl
  ]

  read_all-InTime :
      (es : List (ℕ × BodyRead)) (s : StreamMeter)
      → InTime es
      → s.pending ≡ []
      → s.ended ≡ false
      → let (s', out) = read_all s es in
        (out ≡ concat (chunks_of es))
        × (parsed s' ≡ consume_all json upstream (chunks_of es) (parsed s))
        × (s'.reported ≡ s.reported)
        × (s'.pending ≡ [])
        × (s'.ended ≡ false)
  unfolding read_all chunks_of concat consume_all
  read_all-InTime [] s i p e = (refl, refl, refl, p, e)
  read_all-InTime ((size, b) ∷ es) s (i, is) p e =
      let (outs, parse, unreported, left, going) = read_all-InTime es (teed s b) is p e in
      rw (read-body s size b p e, read_body-InTime s b i)
        (ap (λ t. b.chunk ++ t) outs, parse, unreported, left, going)

  -- A stream whose body is read with no deadline passing, up to its end, its error or a disconnect:
  -- the client gets the bytes of the body and no others, and `Close` reports, if there are tokens,
  -- the usage that the parser finds in those bytes.
  pub read_all-chunks :
      (es : List (ℕ × BodyRead))
      → InTime es
      → let (s, out) = read_all new_stream_meter es in
        (out ≡ concat (chunks_of es))
        × ((close s).1 ≡ report (feed json upstream (concat (chunks_of es)) ([], new_usage)).1)
  unfolding close
  read_all-chunks es i =
      let (outs, parse, unreported, left, going) =
        read_all-InTime es new_stream_meter i refl refl in
      let (fed, rest) = consume_all-feed json upstream (chunks_of es) new_usage in
      (outs, rw unreported (ap (λ q. report q.1) (parse ∙ fed)))

  read_all-append :
      (es fs : List (ℕ × BodyRead)) (s : StreamMeter)
      → let (s', out) = read_all s es in
        read_all s (es ++ fs) ≡ ((read_all s' fs).0, out ++ (read_all s' fs).1)
  unfolding read_all
  read_all-append [] fs s = refl
  read_all-append ((size, b) ∷ es) fs s =
      let (s', out, fault) = read json upstream seconds s size b in
      rw (read_all-append es fs s')
        (ap (λ t. ((read_all (read_all s' es).0 fs).0, t)) (sym (append_assoc out _ _)))

  -- The meter after the read at the deadline.
  abbrev cut_off : StreamMeter → BodyRead → StreamMeter
  cut_off s b = record (teed s b) { pending = build_timeout_trailer seconds; ended = true }

  read_body-late :
      (s : StreamMeter) (b : BodyRead)
      → (is_some b.fault && b.deadline_exceeded) ≡ true
      → read_body json upstream seconds s b ≡ (cut_off s b, b.chunk, none)
  unfolding read_body
  read_body-late s b late = elim (Option-cases b.fault) [
    | inl fine ↦ absurd (ground arith)
    | inr (x, fault) ↦ let hit : b.deadline_exceeded ≡ true = ground arith in rw (fault, hit) refl
  ]

  read_all-late :
      (s : StreamMeter) (size : ℕ) (b : BodyRead) (ds : List (ℕ × BodyRead))
      → s.pending ≡ []
      → s.ended ≡ false
      → (is_some b.fault && b.deadline_exceeded) ≡ true
      → length (build_timeout_trailer seconds) ≤ total_size ds
      → let (s', out) = read_all s ((size, b) ∷ ds) in
        (out ≡ b.chunk ++ build_timeout_trailer seconds)
        × (s'.usage ≡ (consume json upstream b.chunk (parsed s)).1)
        × (s'.reported ≡ s.reported)
  unfolding read_all
  read_all-late s size b ds p e late le =
      let (outs, kept, unreported) = read_all-ended ds (cut_off s b) refl in
      rw (read-body s size b p e, read_body-late s b late)
        (ap (λ t. b.chunk ++ t) (outs ∙ take_all (total_size ds) _ le), kept, unreported)

  -- A stream that the deadline cuts off at some read, which may still have brought bytes: with
  -- buffers that add up to the trailer's length, the client gets the bytes of the body and then the
  -- whole trailer, and `Close` reports the usage found in the bytes of the body.
  pub read_all-trailer :
      (es ds : List (ℕ × BodyRead)) (size : ℕ) (b : BodyRead)
      → InTime es
      → (is_some b.fault && b.deadline_exceeded) ≡ true
      → length (build_timeout_trailer seconds) ≤ total_size ds
      → let (s, out) = read_all new_stream_meter (es ++ (size, b) ∷ ds) in
        (out ≡ concat (chunks_of es) ++ (b.chunk ++ build_timeout_trailer seconds))
        × ((close s).1
            ≡ report (feed json upstream (concat (chunks_of es) ++ b.chunk) ([], new_usage)).1)
  unfolding close
  read_all-trailer es ds size b i late le =
      let s = (read_all new_stream_meter es).0 in
      let (outs, parse, unreported, left, going) =
        read_all-InTime es new_stream_meter i refl refl in
      let (rest, used, still) = read_all-late s size b ds left going late le in
      let fed =
        ap (λ q. consume json upstream b.chunk q) parse
        ∙ consume-consume_all json upstream (chunks_of es) b.chunk new_usage in
      rw (read_all-append es ((size, b) ∷ ds) new_stream_meter)
        (rw (outs, rest) refl, rw (still, unreported) (ap report (used ∙ ap (λ q. q.1) fed)))
