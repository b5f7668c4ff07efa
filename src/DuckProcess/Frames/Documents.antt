-- ===== src/DuckProcess/Frames/Documents.antt =====
-- The texts that DuckDB prints, and the results the reader makes of them.
use rss_lance.Base.{
  ℕ, suc, List, [], ◌∷◌, ◌++◌, Bool, true, false, ◌&&◌, ◌==◌, ◌≡◌, refl, ap, arith, ◌∙◌, All,
}
use rss_lance.Base.Int.{pos}
use rss_lance.DuckProcess.Frames.{Scan, scan_char, scan, is_open}

-- A character of a string literal.
pub data Letter : Type 0 where
  raw : (c : ℕ) → (c == 34) ≡ false → (c == 92) ≡ false → Letter
  escaped : ℕ → Letter

-- What stands between the brackets of an array: characters that are neither quotes nor brackets (the
-- braces, commas, colons, numbers, spaces and newlines among them), string literals, and arrays.
pub data Body : Type 0 where
  done : Body
  plain : (c : ℕ) → (c == 34) ≡ false → (c == 91) ≡ false → (c == 93) ≡ false → Body → Body
  literal : List Letter → Body → Body
  array : Body → Body → Body

unfoldable pub letters : List Letter → List ℕ
letters [] = 34 ∷ []
letters (raw c q b ∷ ls) = c ∷ letters ls
letters (escaped c ∷ ls) = 92 ∷ c ∷ letters ls

unfoldable pub print : Body → List ℕ
unfolding letters
print done = []
print (plain c p q r rest) = c ∷ print rest
print (literal ls rest) = (34 ∷ letters ls) ++ print rest
print (array inner rest) = (91 ∷ print inner) ++ 93 ∷ print rest

abbrev pub at_depth : ℕ → Scan
at_depth n = record { bracket_depth = pos n; in_string = false; escape = false }

abbrev in_text : ℕ → Scan
in_text n = record { bracket_depth = pos n; in_string = true; escape = false }

pub scan-append : (xs ys : List ℕ) (s : Scan) → scan (xs ++ ys) s ≡ scan ys (scan xs s)
unfolding scan
scan-append [] ys s = refl
scan-append (x ∷ xs) ys s = scan-append xs ys (scan_char x s)

-- Along a text, some bracket is open behind each character.
unfoldable pub Stays : List ℕ → Scan → Type 0
Stays [] s = Unit
Stays (c ∷ cs) s = (is_open (scan_char c s).bracket_depth ≡ true) × Stays cs (scan_char c s)

Stays-append : (xs ys : List ℕ) (s : Scan) → Stays xs s → Stays ys (scan xs s) → Stays (xs ++ ys) s
unfolding Stays scan
Stays-append [] ys s h g = g
Stays-append (x ∷ xs) ys s h g = (h.0, Stays-append xs ys (scan_char x s) h.1 g)

and_false : (b : Bool) → (b && false) ≡ false
and_false true = refl
and_false false = refl

scan_char_plain :
    (c n : ℕ)
    → (c == 34) ≡ false
    → (c == 91) ≡ false
    → (c == 93) ≡ false
    → scan_char c (at_depth n) ≡ at_depth n
unfolding scan_char
scan_char_plain c n p q r = rw (and_false (c == 92), p, q, r)

scan_char_raw :
    (c n : ℕ) → (c == 34) ≡ false → (c == 92) ≡ false → scan_char c (in_text n) ≡ in_text n
unfolding scan_char
scan_char_raw c n p q = rw (p, q)

-- A piece of text that leaves the depth as it is, and open where it is.
pub record Level (xs : List ℕ) (s t : Scan) : Type 0 where
  pub ends : scan xs s ≡ t
  pub stays : Stays xs s

module _ {xs ys : List ℕ} {s t u : Scan} where
  Level-append : Level xs s t → Level ys t u → Level (xs ++ ys) s u
  Level-append h g = record {
    ends = scan-append xs ys s ∙ ap (scan ys) h.ends ∙ g.ends;
    stays = Stays-append xs ys s h.stays (rw h.ends g.stays);
  }

Level-step :
    (c n : ℕ) {xs : List ℕ} {s t u : Scan}
    → scan_char c s ≡ t
    → t.bracket_depth ≡ pos (suc n)
    → Level xs t u
    → Level (c ∷ xs) s u
unfolding scan Stays
Level-step c n {xs} {s} {t} {u} e d h = record {
  ends = ap (scan xs) e ∙ h.ends;
  stays = (rw (e, d) refl, rw e h.stays);
}

Level-letters : (ls : List Letter) (n : ℕ) → Level (letters ls) (in_text (suc n)) (at_depth (suc n))
unfolding letters Stays scan scan_char
Level-letters [] n = record { ends = refl; stays = (refl, tt) }
Level-letters (raw c p q ∷ ls) n =
    Level-step c n (scan_char_raw c (suc n) p q) refl (Level-letters ls n)
Level-letters (escaped c ∷ ls) n =
    Level-step 92 n refl refl (Level-step c n refl refl (Level-letters ls n))

pub Level-print : (b : Body) (n : ℕ) → Level (print b) (at_depth (suc n)) (at_depth (suc n))
unfolding print Stays scan
Level-print done n = record { ends = refl; stays = tt }
Level-print (plain c p q r rest) n =
    Level-step c n (scan_char_plain c (suc n) p q r) refl (Level-print rest n)
Level-print (literal ls rest) n =
    Level-step 34 n refl refl (Level-append (Level-letters ls n) (Level-print rest n))
Level-print (array inner rest) n =
    Level-step 91 (suc n) refl refl
      (Level-append (Level-print inner (suc n)) (Level-step 93 n refl refl (Level-print rest n)))

-- What an array's text is, with the newline behind it.
unfoldable pub document : Body → List ℕ
document b = (91 ∷ print b) ++ 93 ∷ 10 ∷ []

unfoldable pub last : List ℕ → ℕ
last [] = 0
last (c ∷ []) = c
last (c ∷ d ∷ cs) = last (d ∷ cs)

-- A line of the stream ends in a newline.
unfoldable pub IsLine : List ℕ → Type 0
IsLine line = last line ≡ 10

-- Where the first line of the rest of a document ends: in front of the closing bracket, or with it.
pub data Cut (line more xs : List ℕ) : Type 0 where
  inside : (zs : List ℕ) → xs ≡ line ++ zs → more ≡ zs ++ 93 ∷ 10 ∷ [] → Cut line more xs
  whole : line ≡ xs ++ 93 ∷ 10 ∷ [] → more ≡ [] → Cut line more xs

parts_nil : (xs ys : List ℕ) → xs ++ ys ≡ [] → (xs ≡ []) × (ys ≡ [])
parts_nil [] ys e = (refl, e)
parts_nil (x ∷ xs) ys e = cc

pub cut :
    (line more xs : List ℕ) → IsLine line → line ++ more ≡ xs ++ 93 ∷ 10 ∷ [] → Cut line more xs
unfolding last IsLine
cut [] more xs h e = absurd (omega (arith, h))
cut (c ∷ []) more [] h e =
    let q : c ≡ 93 = cc in let h' : c ≡ 10 = h in absurd (omega (arith, q, h'))
cut (c ∷ []) more (x ∷ xs) h e =
    (let p : x ∷ xs ≡ (c ∷ []) ++ xs = cc in
      let q : more ≡ xs ++ 93 ∷ 10 ∷ [] = cc in inside xs p q)
cut (c ∷ d ∷ line) more [] h e =
    let tail : line ++ more ≡ [] = cc in
    let both = parts_nil line more tail in
    let all : c ∷ d ∷ line ≡ 93 ∷ 10 ∷ [] = (let p : line ≡ [] = both.0 in cc) in whole all both.1
cut (c ∷ d ∷ line) more (x ∷ xs) h e =
    let same : c ≡ x = cc in
    let tail : (d ∷ line) ++ more ≡ xs ++ 93 ∷ 10 ∷ [] = cc in
    elim (cut (d ∷ line) more xs h tail) [
      | inside zs p q ↦ (let p' : x ∷ xs ≡ (c ∷ d ∷ line) ++ zs = cc in inside zs p' q)
      | whole p q ↦ (let p' : c ∷ d ∷ line ≡ (x ∷ xs) ++ 93 ∷ 10 ∷ [] = cc in whole p' q)
    ]

unfoldable pub concat_lines : List (List ℕ) → List ℕ
concat_lines [] = []
concat_lines (line ∷ lines) = line ++ concat_lines lines

pub no_lines : (lines : List (List ℕ)) → All IsLine lines → concat_lines lines ≡ [] → lines ≡ []
unfolding concat_lines IsLine last
no_lines [] h e = refl
no_lines ([] ∷ lines) h e = absurd (omega (arith, h.0))
no_lines ((c ∷ line) ∷ lines) h e = cc

pub Stays-open :
    (c : ℕ) (line zs : List ℕ) (s : Scan)
    → Stays ((c ∷ line) ++ zs) s
    → is_open (scan (c ∷ line) s).bracket_depth ≡ true
unfolding Stays scan
Stays-open c [] zs s h = h.0
Stays-open c (d ∷ line) zs s h = Stays-open d line zs (scan_char c s) h.1

pub Stays-rest : (line zs : List ℕ) (s : Scan) → Stays (line ++ zs) s → Stays zs (scan line s)
unfolding Stays scan
Stays-rest [] zs s h = h
Stays-rest (c ∷ line) zs s h = Stays-rest line zs (scan_char c s) h.1
