-- ===== src/Discover/Table/Rows.antt =====
-- internal/discover/neighbors.go: a line of words is read word by word, and a text line by line.
use pulsitor_lan_agent.Base.{
  ℕ, zero, suc, ◌≡◌, ◌≢◌, refl, ap, ◌∙◌, false, List, [], ◌∷◌, ◌++◌, map, arith, if_both, ◌==◌,
  nat_eq, Text, text_eq, texts_eq, int_eq, All, is_space, put_first, split_at,
}
use pulsitor_lan_agent.Discover.Table.{
  drop_return, last_line, lines_of, scan_lines, starts_word, fields,
}

-- A word: at least one character, and no blank.
abbrev pub IsWord : Text → Type 0
IsWord word = (word ≢ []) × All (λ c. is_space c ≡ false) word

-- The words of a row before its last, each with the number of further blanks after the one that
-- follows it, and the last word, which the end of the line follows.
abbrev pub Row : Type 0
Row = List (Text × ℕ) × Text

abbrev pub AreWords : Row → Type 0
AreWords row = All (λ cell. IsWord cell.0) row.0 × IsWord row.1

unfoldable pub blanks : ℕ → Text → Text
blanks zero rest = rest
blanks (suc n) rest = 32 ∷ blanks n rest

render_cells : List (Text × ℕ) → Text → Text
unfolding blanks
render_cells [] last = last
render_cells ((word, n) ∷ rest) last = word ++ (32 ∷ blanks n (render_cells rest last))

unfoldable pub render_row : Row → Text
unfolding render_cells
render_row row = render_cells row.0 row.1

words_before : List (Text × ℕ) → List Text → List Text
words_before [] last = last
words_before ((word, n) ∷ rest) last = word ∷ words_before rest last

unfoldable pub words_of : Row → List Text
unfolding words_before
words_of row = words_before row.0 (row.1 ∷ [])

-- Each line ends with a newline.
unfoldable pub render_rows : List Row → Text
unfolding render_row
render_rows [] = []
render_rows (row ∷ rest) = render_row row ++ (10 ∷ render_rows rest)

fields-blank : (t : Text) → fields (32 ∷ t) ≡ fields t
unfolding fields is_space
fields-blank t = refl

fields-blanks : (n : ℕ) (t : Text) → fields (blanks n t) ≡ fields t
unfolding blanks
fields-blanks zero t = refl
fields-blanks (suc n) t = fields-blank (blanks n t) ∙ fields-blanks n t

fields-last : (c : ℕ) (t : Text) → is_space c ≡ false → fields (c ∷ 32 ∷ t) ≡ (c ∷ []) ∷ fields t
unfolding fields starts_word is_space
fields-last c t h = rw h

fields-more :
    (c d : ℕ) (t : Text)
    → is_space c ≡ false
    → is_space d ≡ false
    → fields (c ∷ d ∷ t) ≡ put_first c (fields (d ∷ t))
unfolding fields starts_word
fields-more c d t h k = simp (h, k)

fields-word :
    (c : ℕ) (word t : Text)
    → All (λ c. is_space c ≡ false) (c ∷ word)
    → fields ((c ∷ word) ++ (32 ∷ t)) ≡ (c ∷ word) ∷ fields t
unfolding put_first
fields-word c [] t h = fields-last c t h.0
fields-word c (d ∷ word) t h =
    fields-more c d (word ++ (32 ∷ t)) h.0 h.1.0 ∙ ap (put_first c) (fields-word d word t h.1)

fields-end : (c : ℕ) → is_space c ≡ false → fields (c ∷ []) ≡ (c ∷ []) ∷ []
unfolding fields starts_word
fields-end c h = rw h

fields-only_word :
    (c : ℕ) (word : Text)
    → All (λ c. is_space c ≡ false) (c ∷ word)
    → fields (c ∷ word) ≡ (c ∷ word) ∷ []
unfolding put_first
fields-only_word c [] h = fields-end c h.0
fields-only_word c (d ∷ word) h =
    fields-more c d word h.0 h.1.0 ∙ ap (put_first c) (fields-only_word d word h.1)

-- A word by itself, and a word up to a blank.
pub fields-one : (word : Text) → IsWord word → fields word ≡ word ∷ []
fields-one [] h = absurd (h.0 refl)
fields-one (c ∷ word) h = fields-only_word c word h.1

pub fields-next :
    (word rest : Text) → IsWord word → fields (word ++ (32 ∷ rest)) ≡ word ∷ fields rest
fields-next [] rest h = absurd (h.0 refl)
fields-next (c ∷ word) rest h = fields-word c word rest h.1

fields-render_cells :
    (cells : List (Text × ℕ)) (last : Text)
    → All (λ cell. IsWord cell.0) cells
    → IsWord last
    → fields (render_cells cells last) ≡ words_before cells (last ∷ [])
unfolding render_cells words_before
fields-render_cells [] last h k = fields-one last k
fields-render_cells ((word, n) ∷ rest) last h k =
    fields-next word (blanks n (render_cells rest last)) h.0
    ∙ ap (λ l. word ∷ l)
        (fields-blanks n (render_cells rest last) ∙ fields-render_cells rest last h.1 k)

pub fields-render_row : (row : Row) → AreWords row → fields (render_row row) ≡ words_of row
unfolding render_row words_of
fields-render_row (cells, last) h = fields-render_cells cells last h.0 h.1

-- No character that ends a line.
abbrev pub IsLine : Text → Type 0
IsLine = All (λ c. (c ≢ 10) × (c ≢ 13))

line_char : (c : ℕ) → is_space c ≡ false → (c ≢ 10) × (c ≢ 13)
unfolding is_space
line_char c h = (λ e. absurd (cc (rw e at h)), λ e. absurd (cc (rw e at h)))

word-IsLine : (word t : Text) → All (λ c. is_space c ≡ false) word → IsLine t → IsLine (word ++ t)
word-IsLine [] t h k = k
word-IsLine (c ∷ word) t h k = (line_char c h.0, word-IsLine word t h.1 k)

blanks-IsLine : (n : ℕ) (t : Text) → IsLine t → IsLine (blanks n t)
unfolding blanks
blanks-IsLine zero t k = k
blanks-IsLine (suc n) t k =
    ((λ e. absurd (omega arith), λ e. absurd (omega arith)), blanks-IsLine n t k)

render_cells-IsLine :
    (cells : List (Text × ℕ)) (last : Text)
    → All (λ cell. IsWord cell.0) cells
    → IsLine last
    → IsLine (render_cells cells last)
unfolding render_cells
render_cells-IsLine [] last h k = k
render_cells-IsLine ((word, n) ∷ rest) last h k =
    word-IsLine word _ h.0.1 (blanks-IsLine (suc n) _ (render_cells-IsLine rest last h.1 k))

only_word-IsLine : (word : Text) → All (λ c. is_space c ≡ false) word → IsLine word
only_word-IsLine [] h = tt
only_word-IsLine (c ∷ word) h = (line_char c h.0, only_word-IsLine word h.1)

render_row-IsLine : (row : Row) → AreWords row → IsLine (render_row row)
unfolding render_row
render_row-IsLine (cells, last) h = render_cells-IsLine cells last h.0 (only_word-IsLine last h.1.1)

drop_return-line : (line : Text) → IsLine line → drop_return line ≡ line
unfolding drop_return
drop_return-line [] h = refl
drop_return-line (c ∷ []) h = let other : (c == 13) ≡ false = ground arith in rw other
drop_return-line (c ∷ d ∷ rest) h = ap (λ l. c ∷ l) (drop_return-line (d ∷ rest) h.1)

split_at-line :
    (line t : Text) → IsLine line → split_at 10 (line ++ (10 ∷ t)) ≡ line ∷ split_at 10 t
unfolding split_at put_first
split_at-line [] t h = refl
split_at-line (c ∷ line) t h =
    let other : (c == 10) ≡ false = ground arith in
    rw other (ap (put_first c) (split_at-line line t h.1))

lines_of-more :
    (line : Text) (rest : List Text)
    → rest ≢ []
    → lines_of (line ∷ rest) ≡ drop_return line ∷ lines_of rest
unfolding lines_of
lines_of-more line [] h = absurd (h refl)
lines_of-more line (next ∷ rest) h = refl

put_first_some : (c : ℕ) (l : List Text) → put_first c l ≢ []
unfolding put_first
put_first_some c [] e = absurd (cc e)
put_first_some c (first ∷ rest) e = absurd (cc e)

split_at_some : (c : ℕ) (t : Text) → split_at c t ≢ []
unfolding split_at
split_at_some c [] = λ e. absurd (cc e)
split_at_some c (d ∷ t) =
    if_both (λ (l : List Text). l ≢ []) (d == c) _ _ (λ e. absurd (cc e))
      (put_first_some d (split_at c t))

pub scan_lines-line :
    (line t : Text) → IsLine line → scan_lines (line ++ (10 ∷ t)) ≡ line ∷ scan_lines t
unfolding scan_lines
scan_lines-line line t h =
    ap lines_of (split_at-line line t h)
    ∙ (lines_of-more line (split_at 10 t) (split_at_some 10 t)
        ∙ ap (λ l. l ∷ lines_of (split_at 10 t)) (drop_return-line line h))

pub scan_lines-render_rows :
    (rows : List Row) → All AreWords rows → scan_lines (render_rows rows) ≡ map render_row rows
unfolding render_rows scan_lines split_at lines_of last_line
scan_lines-render_rows [] h = refl
scan_lines-render_rows (row ∷ rest) h =
    scan_lines-line (render_row row) (render_rows rest) (render_row-IsLine row h.0)
    ∙ ap (λ l. render_row row ∷ l) (scan_lines-render_rows rest h.1)
