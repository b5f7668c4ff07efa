-- ===== src/DuckProcess/Frames.antt =====
-- The reader of the DuckDB process, `readLoop` and `parseJSONRows` of server/db/duckdb_process.go, on
-- the codes of the characters. It runs beside the queries and hands each complete result on.
pub mod Documents
pub mod Delivery
use rss_lance.Base.{
  ℕ, zero, suc, String, List, [], ◌∷◌, ◌++◌, Bool, true, false, not, ◌&&◌, Option, none, some, ◌==◌,
  code, if◌then◌else◌,
}
use rss_lance.Base.Int.{ℤ, pos, negsuc}
use rss_lance.DuckProcess.{Row}
use rss_lance.Sql.{codes}

abbrev pub same_codes : List ℕ → List ℕ → Bool
same_codes [] [] = true
same_codes [] (d ∷ ds) = false
same_codes (c ∷ cs) [] = false
same_codes (c ∷ cs) (d ∷ ds) = c == d && same_codes cs ds

-- `bracketDepth++` and `bracketDepth--`.
abbrev pub deeper : ℤ → ℤ
deeper (pos n) = pos (suc n)
deeper (negsuc zero) = pos 0
deeper (negsuc (suc n)) = negsuc n

abbrev pub shallower : ℤ → ℤ
shallower (pos zero) = negsuc 0
shallower (pos (suc n)) = pos n
shallower (negsuc n) = negsuc (suc n)

-- `bracketDepth > 0`.
abbrev pub is_open : ℤ → Bool
is_open (pos zero) = false
is_open (pos (suc n)) = true
is_open (negsuc n) = false

pub record Scan : Type 0 where
  pub bracket_depth : ℤ
  pub in_string : Bool
  pub escape : Bool

abbrev pub outside : Scan
outside = record { bracket_depth = pos 0; in_string = false; escape = false }

-- One character: 92 is the backslash, 34 the quote, 91 and 93 the brackets.
unfoldable pub scan_char : ℕ → Scan → Scan
scan_char ch s =
    if s.escape
    then record s { escape = false }
    else if ch == 92 && s.in_string
    then record s { escape = true }
    else if ch == 34
    then record s { in_string = not s.in_string }
    else if s.in_string
    then s
    else if ch == 91
    then record s { bracket_depth = deeper s.bracket_depth }
    else if ch == 93
    then record s { bracket_depth = shallower s.bracket_depth }
    else s

unfoldable pub scan : List ℕ → Scan → Scan
unfolding scan_char
scan [] s = s
scan (ch ∷ line) s = scan line (scan_char ch s)

-- `queryResult`: rows, or one of the two errors.
pub data QueryResult : Type 0 where
  parsed : List Row → QueryResult
  parse_failed : List ℕ → QueryResult
  stdout_failed : QueryResult

-- `buf` and the state of the scan.
pub record Reader : Type 0 where
  pub buf : List ℕ
  pub state : Scan

abbrev pub new_reader : Reader
new_reader = record { buf = []; state = outside }

-- `trim_space` is strings.TrimSpace, and `unmarshal` json.Unmarshal (none is its error).
module _ (trim_space : List ℕ → List ℕ) (unmarshal : List ℕ → Option (List Row)) where
  or_parse_failed : List ℕ → Option (List Row) → QueryResult
  or_parse_failed raw none = parse_failed raw
  or_parse_failed raw (some rows) = parsed rows

  -- `parseJSONRows`: the text "[{]" stands for no rows.
  unfoldable pub parse_json_rows : List ℕ → QueryResult
  unfolding or_parse_failed
  parse_json_rows raw =
      if same_codes raw []
      then parsed []
      else if same_codes raw (codes "[]")
      then parsed []
      else if same_codes raw (codes "[{]")
      then parsed []
      else or_parse_failed raw (unmarshal raw)

  -- What is sent for the text read so far: nothing where only spaces were read.
  results_of : List ℕ → List QueryResult
  unfolding parse_json_rows
  results_of raw = if same_codes raw [] then [] else parse_json_rows raw ∷ []

  -- Behind the scan of a line: the result, once no bracket is open.
  finish_line : Reader → List QueryResult × Reader
  unfolding results_of
  finish_line r =
      if is_open r.state.bracket_depth then ([], r) else (results_of (trim_space r.buf), new_reader)

  -- One line, with its newline unless the stream ends in it.
  unfoldable pub read_line : List ℕ → Reader → List QueryResult × Reader
  unfolding scan finish_line
  read_line [] r = ([], r)
  read_line (c ∷ line) r =
      finish_line (record { buf = r.buf ++ c ∷ line; state = scan (c ∷ line) r.state })

  unfoldable pub read_lines : List (List ℕ) → Reader → List QueryResult × Reader
  unfolding read_line
  read_lines [] r = ([], r)
  read_lines (line ∷ lines) r =
      let (results, r') = read_line line r in
      let (more, r'') = read_lines lines r' in (results ++ more, r'')

  -- The end of the stream: what is left in the buffer, and the error.
  at_end : Reader → List QueryResult
  unfolding results_of
  at_end r =
      (if same_codes r.buf [] then [] else results_of (trim_space r.buf)) ++ stdout_failed ∷ []

  -- `readLoop` on the lines of the stream and what stands behind the last newline.
  unfoldable pub read_loop : List (List ℕ) → List ℕ → List QueryResult
  unfolding read_lines read_line at_end
  read_loop lines rest =
      let (results, r) = read_lines lines new_reader in
      let (more, r') = read_line rest r in results ++ more ++ at_end r'
