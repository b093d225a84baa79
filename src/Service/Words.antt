-- ===== src/Service/Words.antt =====
-- The command line that internal/service/service.go writes for a service: that no two lists of words
-- share one. It is shown with a reader of this module, which is not the one of systemd or of Windows:
-- those also expand `%` and `$` or treat a lone `;` on their own.
use pulsitor_lan_agent.Base.{
  ℕ, ◌≡◌, ◌≢◌, inl, inr, refl, sym, ap, ◌∙◌, Bool, true, false, not, ◌&&◌, ◌||◌, List, [], ◌∷◌,
  ◌++◌, map, arith, if◌then◌else◌, Bool-cases, ◌==◌, nat_eq, list_beq, Text, text_eq, texts_eq,
  beq→eq, int_eq, All,
}
use mathlib.Core.List.{append-nil, append_assoc}
use pulsitor_lan_agent.Service.{splits, contains_any, escape_quotes, quote, join, command_line}

-- Where a reader of a command line stands: between words, in a word, within its quotes, or after a
-- backslash there.
data Mode : Type 0 where
  between : Mode
  plain : Text → Mode
  inside : Text → Mode
  escaped : Text → Mode

is_blank : ℕ → Bool
is_blank c = c == 32 || (c == 9 || (c == 10 || c == 13))

next : ℕ → Mode → List Text × Mode
unfolding is_blank
next c between =
    if is_blank c then ([], between) else if c == 34 then ([], inside []) else ([], plain (c ∷ []))
next c (plain word) =
    if is_blank c
    then (word ∷ [], between)
    else if c == 34
    then ([], inside word)
    else ([], plain (word ++ (c ∷ [])))
next c (inside word) =
    if c == 34
    then ([], plain word)
    else if c == 92
    then ([], escaped word)
    else ([], inside (word ++ (c ∷ [])))
next c (escaped word) = ([], inside (word ++ (c ∷ [])))

words : Text → Mode → List Text
unfolding next
words [] between = []
words [] (plain word) = word ∷ []
words [] (inside word) = word ∷ []
words [] (escaped word) = word ∷ []
words (c ∷ rest) mode = let (done, after) = next c mode in done ++ words rest after

-- The words of a command line: blanks outside quotes separate them, and a backslash within quotes
-- takes the next character as it is.
read_words : Text → List Text
unfolding words
read_words line = words line between

-- No backslash and no line break.
abbrev pub IsPlain : Text → Type 0
IsPlain = All (λ c. (c ≢ 92) × ((c ≢ 10) × (c ≢ 13)))

abbrev pub Readable : List Text → Type 0
Readable = All IsPlain

words-plain :
    (c : ℕ) (rest word : Text)
    → splits c ≡ false
    → (c ≢ 10) × (c ≢ 13)
    → words (c ∷ rest) (plain word) ≡ words rest (plain (word ++ (c ∷ [])))
unfolding words splits next is_blank
words-plain c rest word h k = ground arith

words-first :
    (c : ℕ) (rest : Text)
    → splits c ≡ false
    → (c ≢ 10) × (c ≢ 13)
    → words (c ∷ rest) between ≡ words rest (plain (c ∷ []))
unfolding words splits next is_blank
words-first c rest h k = ground arith

unquoted :
    (value rest word : Text)
    → contains_any value ≡ false
    → IsPlain value
    → words (value ++ rest) (plain word) ≡ words rest (plain (word ++ value))
unfolding contains_any
unquoted [] rest word h k = rw append-nil
unquoted (c ∷ value) rest word h k =
    let safe : splits c ≡ false = ground arith in
    let others : contains_any value ≡ false = ground arith in
    words-plain c (value ++ rest) word safe k.0.1
    ∙ (unquoted value rest (word ++ (c ∷ [])) others k.1
        ∙ ap (λ w. words rest (plain w)) (append_assoc word (c ∷ []) value))

words-inside :
    (c : ℕ) (value word : Text)
    → c ≢ 92
    → words (if c == 34 then 92 ∷ 34 ∷ value else c ∷ value) (inside word)
      ≡ words value (inside (word ++ (c ∷ [])))
unfolding words next
words-inside c value word h = elim (Bool-cases (c == 34)) [
  | inl e ↦ rw (beq→eq c 34 e)
  | inr e ↦ let other : (c == 92) ≡ false = ground arith in simp (e, other)
]

if_append :
    (test : Bool) (x y rest : Text)
    → (if test then x else y) ++ rest ≡ (if test then x ++ rest else y ++ rest)
if_append true x y rest = refl
if_append false x y rest = refl

quoted :
    (value rest word : Text)
    → IsPlain value
    → words (escape_quotes value ++ rest) (inside word) ≡ words rest (inside (word ++ value))
unfolding escape_quotes
quoted [] rest word h = rw append-nil
quoted (c ∷ value) rest word h =
    let tail = quoted value rest (word ++ (c ∷ [])) h.1 in
    ap (λ t. words t (inside word)) (if_append (c == 34) _ _ rest)
    ∙ (words-inside c (escape_quotes value ++ rest) word h.0.0
        ∙ (tail ∙ ap (λ w. words rest (inside w)) (append_assoc word (c ∷ []) value)))

words_end : words [] between ≡ []
unfolding words
words_end = refl

plain_end : (word : Text) → words [] (plain word) ≡ word ∷ []
unfolding words
plain_end word = refl

plain_blank : (word rest : Text) → words (32 ∷ rest) (plain word) ≡ word ∷ words rest between
unfolding words next is_blank
plain_blank word rest = refl

bare_word :
    (value rest : Text)
    → IsPlain value
    → (not (value == []) && not (contains_any value)) ≡ true
    → words (value ++ rest) between ≡ words rest (plain value)
unfolding contains_any list_beq
bare_word [] rest h bare = cc
bare_word (c ∷ value) rest h bare =
    let safe : splits c ≡ false = ground arith in
    let others : contains_any value ≡ false = ground arith in
    words-first c (value ++ rest) safe h.0.1 ∙ unquoted value rest (c ∷ []) others h.1

wrapped_word :
    (value rest : Text)
    → IsPlain value
    → words ((34 ∷ (escape_quotes value ++ (34 ∷ []))) ++ rest) between ≡ words rest (plain value)
unfolding words next is_blank
wrapped_word value rest h =
    ap (λ t. words t (inside [])) (append_assoc (escape_quotes value) (34 ∷ []) rest)
    ∙ quoted value (34 ∷ rest) [] h

-- A quoted value, read up to the blank that follows it or to the end of the line.
words-quote :
    (value rest : Text)
    → IsPlain value
    → words (quote value ++ rest) between ≡ words rest (plain value)
unfolding quote
words-quote value rest h = elim (Bool-cases (not (value == []) && not (contains_any value))) [
  | inl bare ↦ rw bare (bare_word value rest h bare)
  | inr wrapped ↦ rw wrapped (wrapped_word value rest h)
]

read_line :
    (arguments : List Text)
    → Readable arguments
    → words (join (32 ∷ []) (map quote arguments)) between ≡ arguments
unfolding join
read_line [] h = words_end
read_line (value ∷ []) h =
    ap (λ t. words t between) (sym (append-nil (quote value)))
    ∙ (words-quote value [] h.0 ∙ plain_end value)
read_line (value ∷ other ∷ rest) h =
    let tail = read_line (other ∷ rest) h.1 in
    words-quote value (32 ∷ join (32 ∷ []) (map quote (other ∷ rest))) h.0
    ∙ (plain_blank value _ ∙ ap (λ l. value ∷ l) tail)

-- The reader of this module finds the executable and its arguments again.
read_words-command_line :
    (executable : Text) (arguments : List Text)
    → Readable (executable ∷ arguments)
    → read_words (command_line executable arguments) ≡ executable ∷ arguments
unfolding read_words command_line
read_words-command_line executable arguments h = read_line (executable ∷ arguments) h

-- Two services with the same command line have the same executable and the same arguments, when no
-- word of either holds a backslash or a line break: quoting merges no two words and splits none.
pub command_line_injective :
    (executable other : Text) (arguments others : List Text)
    → Readable (executable ∷ arguments)
    → Readable (other ∷ others)
    → command_line executable arguments ≡ command_line other others
    → (executable ≡ other) × (arguments ≡ others)
command_line_injective executable other arguments others h k e =
    let same : executable ∷ arguments ≡ other ∷ others =
      sym (read_words-command_line executable arguments h)
      ∙ (ap read_words e ∙ read_words-command_line other others k) in
    (cc same, cc same)
