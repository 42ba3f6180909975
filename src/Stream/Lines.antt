-- ===== src/Stream/Lines.antt =====
-- The parser sees the lines of the stream, however the network cuts it into chunks.
use rein.Base.{
  ℕ, zero, suc, ◌+◌, ◌≤◌, ◌≡◌, refl, sym, ◌∙◌, false, ◌==◌, List, [], ◌∷◌, ◌++◌, none, some,
  if◌then◌else◌, length, length-append, append_nil, cons_append, concat, Text, arith, Bool-cases,
  inl, inr,
}
use rein.Stream.{
  Usage, Decoders, newline, trim_right_cr, parse_line, cut_line, consume_lines, consume,
}

-- The parser as an automaton that takes one byte at a time.
module _ (json : Decoders) (upstream : Text) where
  unfoldable pub feed_byte : ℕ → Text × Usage → Text × Usage
  feed_byte c (partial, u) =
      if c == newline
      then ([], parse_line json upstream (trim_right_cr partial) u)
      else (partial ++ c ∷ [], u)

  unfoldable pub feed : Text → Text × Usage → Text × Usage
  feed [] s = s
  feed (c ∷ cs) s = feed cs (feed_byte c s)

  feed-append : (a b : Text) (s : Text × Usage) → feed (a ++ b) s ≡ feed b (feed a s)
  unfolding feed
  feed-append [] b s = refl
  feed-append (c ∷ a) b s = feed-append a b (feed_byte c s)

cut_line-open :
    (q : Text) (c : ℕ) (cs : Text)
    → cut_line q ≡ none
    → (c == newline) ≡ false
    → cut_line (q ++ c ∷ []) ≡ none
unfolding cut_line
cut_line-open [] c cs e n = rw n refl
cut_line-open (d ∷ q) c cs e n = ground (arith, cut_line-open q c cs)

cut_line-found :
    (q : Text) (cs : Text) → cut_line q ≡ none → cut_line (q ++ newline ∷ cs) ≡ some (q, cs)
unfolding cut_line
cut_line-found [] cs e = refl
cut_line-found (d ∷ q) cs e = ground (arith, cut_line-found q cs)

module _ (json : Decoders) (upstream : Text) where
  consume_lines-open :
      (n : ℕ) (q : Text) (u : Usage)
      → cut_line q ≡ none
      → consume_lines json upstream n q u ≡ (q, u)
  unfolding consume_lines
  consume_lines-open zero q u e = refl
  consume_lines-open (suc n) q u e = rw (consume_lines, e) refl

  -- Bytes with no newline, then any bytes, with fuel for all of them.
  consume_lines-feed :
      (cs q : Text) (n : ℕ) (u : Usage)
      → cut_line q ≡ none
      → length q + length cs ≤ n
      → consume_lines json upstream n (q ++ cs) u ≡ feed json upstream cs (q, u)
  unfolding feed feed_byte consume_lines parse_line cut_line
  consume_lines-feed [] q n u e le = rw (append_nil q) (consume_lines-open n q u e)
  consume_lines-feed (c ∷ cs) q zero u e le = absurd (ground arith)
  consume_lines-feed (c ∷ cs) q (suc n) u e le = elim (Bool-cases (c == newline)) [
    | inl ends ↦
        let here : c ≡ newline = ground arith in
        let found = cut_line-found q cs e in
        let u' = parse_line json upstream (trim_right_cr q) u in
        rw (here, consume_lines, found) (consume_lines-feed cs [] n u' refl (omega arith))
    | inr inside ↦
        rw (inside, cons_append q c cs)
          (consume_lines-feed cs (q ++ c ∷ []) (suc n) u (cut_line-open q c cs e inside)
            (rw (length-append q (c ∷ [])) (omega arith)))
  ]

  consume-feed :
      (chunk q : Text) (u : Usage)
      → cut_line q ≡ none
      → consume json upstream chunk (q, u) ≡ feed json upstream chunk (q, u)
  unfolding consume
  consume-feed chunk q u e =
      consume_lines-feed chunk q (length (q ++ chunk)) u e
        (rw (length-append q chunk) (omega arith))

  feed-open :
      (cs : Text) (s : Text × Usage)
      → cut_line s.0 ≡ none
      → cut_line (feed json upstream cs s).0 ≡ none
  unfolding feed feed_byte cut_line
  feed-open [] s e = e
  feed-open (c ∷ cs) s e = elim (Bool-cases (c == newline)) [
    | inl ends ↦ feed-open cs _ (rw ends refl)
    | inr inside ↦ feed-open cs _ (rw inside (cut_line-open s.0 c cs e inside))
  ]

  -- The chunks of a stream, one `consume` for each.
  unfoldable pub consume_all : List Text → Text × Usage → Text × Usage
  consume_all [] s = s
  consume_all (chunk ∷ chunks) s = consume_all chunks (consume json upstream chunk s)

  consume_all-open :
      (chunks : List Text) (s : Text × Usage)
      → cut_line s.0 ≡ none
      → consume_all chunks s ≡ feed json upstream (concat chunks) s
  unfolding consume_all feed concat
  consume_all-open [] s e = refl
  consume_all-open (chunk ∷ chunks) s e =
      rw (consume-feed chunk s.0 s.1 e, feed-append json upstream chunk (concat chunks) s)
        (consume_all-open chunks (feed json upstream chunk s) (feed-open chunk s e))

  -- Whatever chunks the stream comes in, `consume` leaves what an automaton that takes the stream one
  -- byte at a time leaves, which parses each line at its newline; and it leaves no line unparsed.
  pub consume_all-feed :
      (chunks : List Text) (u : Usage)
      → (consume_all chunks ([], u) ≡ feed json upstream (concat chunks) ([], u))
        × (cut_line (consume_all chunks ([], u)).0 ≡ none)
  unfolding cut_line
  consume_all-feed chunks u =
      let e = consume_all-open chunks ([], u) refl in
      (e, rw e (feed-open (concat chunks) ([], u) refl))

  -- One more chunk.
  pub consume-consume_all :
      (chunks : List Text) (chunk : Text) (u : Usage)
      → consume json upstream chunk (consume_all chunks ([], u))
        ≡ feed json upstream (concat chunks ++ chunk) ([], u)
  consume-consume_all chunks chunk u =
      let (fed, rest) = consume_all-feed chunks u in
      let s = feed json upstream (concat chunks) ([], u) in
      rw fed (consume-feed chunk s.0 s.1 (rw fed at rest))
      ∙ sym (feed-append json upstream (concat chunks) chunk ([], u))
