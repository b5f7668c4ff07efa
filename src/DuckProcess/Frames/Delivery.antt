-- ===== src/DuckProcess/Frames/Delivery.antt =====
-- The delivery of documents: each result once, whole, and in order, however it is cut into lines.
use rss_lance.Base.{
  ℕ, List, [], ◌∷◌, ◌++◌, subst, arith, true, false, Option, ◌≡◌, ◌≢◌, refl, ap, sym, ◌∙◌, map,
  append_assoc, append-nil, All,
}
use rss_lance.DuckProcess.{Row}
use rss_lance.DuckProcess.Frames.{
  Scan, outside, scan, is_open, Reader, new_reader, QueryResult, stdout_failed, parse_json_rows,
  results_of, finish_line, read_line, read_lines, read_loop, at_end, same_codes,
}
use rss_lance.DuckProcess.Frames.Documents.{
  Body, print, document, at_depth, Level, Level-print, Stays, Stays-open, Stays-rest, scan-append,
  IsLine, last, inside, whole, cut, concat_lines, no_lines,
}

-- A document and the lines it arrives in: each of them ends in a newline, and together they are its text.
pub record Printed : Type 0 where
  pub body : Body
  pub lines : List (List ℕ)
  pub are_lines : All IsLine lines
  pub in_lines : concat_lines lines ≡ document body

-- The stream of some documents.
pub stream : List Printed → List (List ℕ)
stream [] = []
stream (d ∷ ds) = d.lines ++ stream ds

module _ (trim_space : List ℕ → List ℕ) (unmarshal : List ℕ → Option (List Row)) where
  empty_IsLine : ¬ (IsLine [])
  unfolding IsLine last
  empty_IsLine h = omega (arith, h)

  read_line-open :
      (c : ℕ) (line : List ℕ) (r : Reader)
      → is_open (scan (c ∷ line) r.state).bracket_depth ≡ true
      → read_line trim_space unmarshal (c ∷ line) r
        ≡ ([], record { buf = r.buf ++ c ∷ line; state = scan (c ∷ line) r.state })
  unfolding read_line finish_line
  read_line-open c line r h = rw h

  read_line-closed :
      (c : ℕ) (line : List ℕ) (r : Reader)
      → is_open (scan (c ∷ line) r.state).bracket_depth ≡ false
      → read_line trim_space unmarshal (c ∷ line) r
        ≡ (results_of trim_space unmarshal (trim_space (r.buf ++ c ∷ line)), new_reader)
  unfolding read_line finish_line
  read_line-closed c line r h = rw h

  read_lines-after :
      (line : List ℕ) (lines : List (List ℕ)) (r r' : Reader) (results : List QueryResult)
      → read_line trim_space unmarshal line r ≡ (results, r')
      → read_lines trim_space unmarshal (line ∷ lines) r ≡ (
        results ++ (read_lines trim_space unmarshal lines r').0,
        (read_lines trim_space unmarshal lines r').1,
      )
  unfolding read_lines read_line
  read_lines-after line lines r r' results e =
      ap
        (λ x. (
          x.0 ++ (read_lines trim_space unmarshal lines x.1).0,
          (read_lines trim_space unmarshal lines x.1).1,
        ))
        e

  scan-closed :
      (line xs : List ℕ) (s : Scan)
      → line ≡ xs ++ 93 ∷ 10 ∷ []
      → scan xs s ≡ at_depth 1
      → is_open (scan line s).bracket_depth ≡ false
  unfolding scan
  scan-closed line xs s p e = rw (p, scan-append xs (93 ∷ 10 ∷ []) s, e)

  deliver :
      (lines : List (List ℕ)) (xs buf : List ℕ) (s : Scan)
      → All IsLine lines
      → concat_lines lines ≡ xs ++ 93 ∷ 10 ∷ []
      → Level xs s (at_depth 1)
      → read_lines trim_space unmarshal lines (record { buf = buf; state = s })
        ≡ (results_of trim_space unmarshal (trim_space (buf ++ concat_lines lines)), new_reader)
  unfolding concat_lines results_of read_lines
  deliver [] [] buf s h e l = cc
  deliver [] (x ∷ xs) buf s h e l = cc
  deliver ([] ∷ lines) xs buf s h e l = absurd (empty_IsLine h.0)
  deliver ((c ∷ line) ∷ lines) xs buf s h e l =
      elim (cut (c ∷ line) (concat_lines lines) xs h.0 e) [
        | inside zs p q ↦
            (let staying : Stays ((c ∷ line) ++ zs) s = subst (λ t. Stays t s) p l.stays in
              let r : Reader = record { buf = buf; state = s } in
              let r' : Reader = record { buf = buf ++ c ∷ line; state = scan (c ∷ line) s } in
              read_lines-after (c ∷ line) lines r r' []
                (read_line-open c line r (Stays-open c line zs s staying))
              ∙ deliver lines zs (buf ++ c ∷ line) (scan (c ∷ line) s) h.1 q (record {
                ends = sym (scan-append (c ∷ line) zs s) ∙ ap (λ t. scan t s) (sym p) ∙ l.ends;
                stays = Stays-rest (c ∷ line) zs s staying;
              })
              ∙ rw (append_assoc buf (c ∷ line) (concat_lines lines)))
        | whole p q ↦
            (let r : Reader = record { buf = buf; state = s } in
              let last_line = no_lines lines h.1 q in
              read_lines-after (c ∷ line) lines r new_reader
                (results_of trim_space unmarshal (trim_space (buf ++ c ∷ line)))
                (read_line-closed c line r (scan-closed (c ∷ line) xs s p l.ends))
              ∙ rw (
                last_line,
                append-nil line,
                append-nil (results_of trim_space unmarshal (trim_space (buf ++ c ∷ line))),
              ))
      ]

  read_lines-append :
      (ls ms : List (List ℕ)) (r : Reader)
      → let first = read_lines trim_space unmarshal ls r in
        read_lines trim_space unmarshal (ls ++ ms) r ≡ (
          first.0 ++ (read_lines trim_space unmarshal ms first.1).0,
          (read_lines trim_space unmarshal ms first.1).1,
        )
  unfolding read_lines
  read_lines-append [] ms r = refl
  read_lines-append (line ∷ ls) ms r =
      let (a, r') = read_line trim_space unmarshal line r in
      let (b, r'') = read_lines trim_space unmarshal ls r' in
      rw (read_lines-append ls ms r', append_assoc a b (read_lines trim_space unmarshal ms r'').0)

  same_codes-nil : (xs : List ℕ) → xs ≢ [] → same_codes xs [] ≡ false
  same_codes-nil [] ne = absurd (ne refl)
  same_codes-nil (x ∷ xs) ne = refl

  document-Level : (b : Body) → Level (91 ∷ print b) outside (at_depth 1)
  unfolding scan Stays
  document-Level b = let l = Level-print b 0 in record { ends = l.ends; stays = (refl, l.stays) }

  -- What one result is made of.
  abbrev pub result_of : Printed → QueryResult
  result_of d = parse_json_rows trim_space unmarshal (trim_space (document d.body))

  module _ (keeps : (cs : List ℕ) → trim_space (91 ∷ cs) ≢ []) where
    one_result :
        (d : Printed)
        → read_lines trim_space unmarshal d.lines new_reader ≡ (result_of d ∷ [], new_reader)
    unfolding results_of document
    one_result d =
        deliver d.lines (91 ∷ print d.body) [] outside d.are_lines d.in_lines
          (document-Level d.body)
        ∙ rw (d.in_lines, same_codes-nil _ (keeps (print d.body ++ 93 ∷ 10 ∷ [])))

    read_lines-stream :
        (ds : List Printed)
        → read_lines trim_space unmarshal (stream ds) new_reader ≡ (map result_of ds, new_reader)
    unfolding stream
    read_lines-stream [] = unfold read_lines in refl
    read_lines-stream (d ∷ ds) =
        rw (read_lines-append d.lines (stream ds) new_reader, one_result d, read_lines-stream ds)

    -- Where DuckDB prints arrays, one behind the other, each with a newline behind it, then the reader
    -- sends the result of each of them, whole, once, and in order, and then the error of the closed
    -- stream: however many newlines are inside the arrays, and whatever brackets and escaped quotes
    -- are in their strings. The hypothesis on `trim_space` is that it keeps what begins with a bracket.
    pub read_loop-stream :
        (ds : List Printed)
        → read_loop trim_space unmarshal (stream ds) [] ≡ map result_of ds ++ stdout_failed ∷ []
    unfolding read_loop read_line at_end
    read_loop-stream ds = rw (read_lines-stream ds, append-nil (map result_of ds))
