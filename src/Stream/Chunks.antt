-- ===== src/Stream/Chunks.antt =====
-- The chunks of a stream depend on its text alone, however it is cut into reads.
use freellm_gateway.Base.{
  ℕ, false, Option, none, some, List, [], ◌∷◌, ◌++◌, ◌≡◌, refl, sym, ◌∙◌, ap, ◌==◌, eq_nat, or_else,
  inl, inr, Bool-cases, append_assoc, append_nil,
}
use freellm_gateway.Stream.{
  split_line, lines_of, extend, Stop, ended, Line, skipped, last, event, unreadable, Platform,
  read_line, read_lines, then_line, then_read, Read, got, read_body, Streamed,
}

-- What the next round of the inner loop sees.
abbrev next_line : List ℕ → Option (List ℕ × List ℕ) → List (List ℕ) × List ℕ
next_line buf none = ([], buf)
next_line buf (some (line, rest)) = (line ∷ (lines_of rest).0, (lines_of rest).1)

extend-next_line :
    (c : ℕ) (cs : List ℕ) (found : Option (List ℕ × List ℕ))
    → extend c (next_line cs found)
      ≡ next_line (c ∷ cs) (elim found [ none ↦ none | some (line, rest) ↦ some (c ∷ line, rest) ])
extend-next_line c cs none = refl
extend-next_line c cs (some (line, rest)) = refl

-- The loop `while ((idx = buf.indexOf('\n')) >= 0)`: a line is taken off, and the loop goes on with
-- what is behind it, until no line is left.
pub lines_of-split_line : (buf : List ℕ) → lines_of buf ≡ next_line buf (split_line buf)
unfolding lines_of split_line
lines_of-split_line [] = refl
lines_of-split_line (c ∷ cs) = elim (Bool-cases (c == b'\n')) [
  | inl here ↦ rw here refl
  | inr later ↦
      rw later (ap (extend c) (lines_of-split_line cs) ∙ extend-next_line c cs (split_line cs))
]

-- Some text cut into lines before more text.
abbrev before : List (List ℕ) × List ℕ → List ℕ → List (List ℕ) × List ℕ
before (lines, rest) ys = (lines ++ (lines_of (rest ++ ys)).0, (lines_of (rest ++ ys)).1)

extend-before :
    (c : ℕ)
    → (c == b'\n') ≡ false
    → (cut : List (List ℕ) × List ℕ) (ys : List ℕ)
    → extend c (before cut ys) ≡ before (extend c cut) ys
unfolding lines_of
extend-before c h ([], rest) ys = rw h refl
extend-before c h (line ∷ lines, rest) ys = refl

-- More text is cut behind the lines that are already there.
lines_of-append : (xs ys : List ℕ) → lines_of (xs ++ ys) ≡ before (lines_of xs) ys
unfolding lines_of
lines_of-append [] ys = refl
lines_of-append (c ∷ cs) ys = elim (Bool-cases (c == b'\n')) [
  | inl here ↦ rw here (ap (λ r. ([] ∷ r.0, r.1)) (lines_of-append cs ys))
  | inr later ↦
      rw later (ap (extend c) (lines_of-append cs ys) ∙ extend-before c later (lines_of cs) ys)
]

extend-none : (c : ℕ) (cut : List (List ℕ) × List ℕ) → cut.0 ≡ [] → (extend c cut).0 ≡ []
extend-none c ([], rest) h = refl
extend-none c (line ∷ lines, rest) h = absurd (cc)

extend-rest :
    (c : ℕ)
    → (c == b'\n') ≡ false
    → (cut : List (List ℕ) × List ℕ) → (lines_of cut.1).0 ≡ []
    → (lines_of (extend c cut).1).0 ≡ []
unfolding lines_of
extend-rest c e ([], rest) h = rw e (extend-none c (lines_of rest) h)
extend-rest c e (line ∷ lines, rest) h = h

-- What is left in the buffer holds no line.
lines_of-rest : (xs : List ℕ) → (lines_of (lines_of xs).1).0 ≡ []
unfolding lines_of
lines_of-rest [] = refl
lines_of-rest (c ∷ cs) = elim (Bool-cases (c == b'\n')) [
  | inl here ↦ rw here (lines_of-rest cs)
  | inr later ↦ rw later (extend-rest c later (lines_of cs) (lines_of-rest cs))
]

abbrev pub bytes_of : List (ℕ × List ℕ) → List ℕ
bytes_of [] = []
bytes_of ((elapsed, bytes) ∷ reads) = bytes ++ bytes_of reads

module _ {Chunk : Type 0} (P : Platform Chunk) where
  open P use {Decoder, decode}

  -- What the platform documents of a decoder that is told that more is to come: it gives for some
  -- bytes in two calls what it gives for them in one.
  pub record IsStreaming : Type 0 where
    pub decode_nil : (d : Decoder) → (decode d []).1 ≡ []
    pub decode_append :
        (d : Decoder) (xs ys : List ℕ)
        → (decode d (xs ++ ys)).1 ≡ (decode d xs).1 ++ (decode (decode d xs).0 ys).1

  abbrev seq : List Chunk × Option Stop → List Chunk × Option Stop → List Chunk × Option Stop
  seq (chunks, none) (more, stop) = (chunks ++ more, stop)
  seq (chunks, some stop) later = (chunks, some stop)

  then_line-seq :
      (l : Line Chunk) (a b : List Chunk × Option Stop)
      → then_line P l (seq a b) ≡ seq (then_line P l a) b
  then_line-seq skipped a b = refl
  then_line-seq last a b = refl
  then_line-seq (event chunk) (chunks, none) b = refl
  then_line-seq (event chunk) (chunks, some stop) b = refl
  then_line-seq (unreadable message) a b = refl

  read_lines-append :
      (ls ms : List (List ℕ)) → read_lines P (ls ++ ms) ≡ seq (read_lines P ls) (read_lines P ms)
  unfolding read_lines
  read_lines-append [] ms = refl
  read_lines-append (l ∷ ls) ms =
      ap (then_line P (read_line P l)) (read_lines-append ls ms)
      ∙ then_line-seq (read_line P l) (read_lines P ls) (read_lines P ms)

  abbrev pub finish : List Chunk × Option Stop → List Chunk × Stop
  finish (chunks, stop) = (chunks, or_else stop ended)

  abbrev pub yielded : Streamed P → List Chunk × Stop
  yielded s = (s.chunks, s.stop)

  yielded-then_read :
      (now later : List Chunk × Option Stop) (first : ℕ) (d : Decoder) (s : Streamed P)
      → yielded s ≡ finish later
      → yielded (then_read P now first d s) ≡ finish (seq now later)
  yielded-then_read (chunks, none) later first d s h = ap (λ r. (chunks ++ r.0, r.1)) h
  yielded-then_read (chunks, some stop) later first d s h = refl

  abbrev pub gots : List (ℕ × List ℕ) → List Read
  gots [] = []
  gots ((elapsed, bytes) ∷ reads) = got elapsed bytes ∷ gots reads

  -- The chunks of a text, read at once.
  abbrev pub read_text : List ℕ → List Chunk × Stop
  read_text text = finish (read_lines P (lines_of text).0)

  module _ (D : IsStreaming) where
    read_body-text :
        (buf : List ℕ) (first : Option ℕ) (d : Decoder) (reads : List (ℕ × List ℕ))
        → (lines_of buf).0 ≡ []
        → yielded (read_body P buf first d (gots reads))
          ≡ read_text (buf ++ (decode d (bytes_of reads)).1)
    unfolding read_body read_lines
    read_body-text buf first d [] h = rw (D.decode_nil d, append_nil buf, h) refl
    read_body-text buf first d ((elapsed, bytes) ∷ reads) h =
        let (d', text) = decode d bytes in
        let cut = lines_of (buf ++ text) in
        let now = read_lines P cut.0 in
        let first' = or_else first elapsed in
        let more = (decode d' (bytes_of reads)).1 in
        let ih = read_body-text cut.1 (some first') d' reads (lines_of-rest (buf ++ text)) in
        yielded-then_read now (read_lines P (lines_of (cut.1 ++ more)).0) first' d'
          (read_body P cut.1 (some first') d' (gots reads)) ih
        ∙ ap finish (
            sym (read_lines-append cut.0 (lines_of (cut.1 ++ more)).0)
            ∙ ap (λ c. read_lines P c.0) (sym (lines_of-append (buf ++ text) more))
            ∙ ap (λ t. read_lines P (lines_of t).0)
                (append_assoc buf text more
                  ∙ ap (λ t. buf ++ t) (sym (D.decode_append d bytes (bytes_of reads)))))

    -- However the bytes of a body are cut into reads, and whenever these arrive, the stream yields
    -- the chunks of the whole text, and stops where that text stops it.
    pub read_body-read_text :
        (d : Decoder) (reads : List (ℕ × List ℕ))
        → yielded (read_body P [] none d (gots reads)) ≡ read_text (decode d (bytes_of reads)).1
    unfolding lines_of
    read_body-read_text d reads = read_body-text [] none d reads refl
