-- ===== src/Builder/Words.antt =====
-- How a POSIX shell splits a line into words, and that it reads quoted words back.
use cicada.Base.{
  ℕ, ◌≡◌, refl, sym, ◌∙◌, ap, String, str, List, [], ◌∷◌, ◌++◌, Option, none, some, Bool, ◌||◌,
  ◌&&◌, if◌then◌else◌, ◌==◌, leb, map, contains, string_eq, nat_eq, Bool-cases, inl, inr,
}
use mathlib.Core.List.{append-nil, append_assoc}
use cicada.Builder.Quote.{escape_quotes, single_quote, space_join}

-- The bytes that stand for themselves outside of quotes: letters, digits and these signs. Others, such as a dollar
-- sign, a quote, a newline or an operator, may mean something else there.
abbrev pub is_literal : ℕ → Bool
is_literal c =
    leb b'a' c && leb c b'z'
    || leb b'A' c && leb c b'Z'
    || leb b'0' c && leb c b'9'
    || contains (str "_-./:,+@%") c

-- Where a shell stands: between words, in a word, behind a backslash in one, or within single quotes in one.
pub data ShellState : Type 0 where
  between in_word escaped quoted : ShellState

-- One more byte at the start of the first word.
abbrev pub put : ℕ → Option (List String) → Option (List String)
put c (some (w ∷ ws)) = some ((c ∷ w) ∷ ws)
put c _ = none

-- The current word ends.
abbrev pub end_word : Option (List String) → Option (List String)
end_word none = none
end_word (some ws) = some ([] ∷ ws)

-- The words that a line stands for, the first being the rest of the current one. A line is no list of words where
-- a quote or a backslash is left open, or where a byte that is not plain stands outside of quotes.
unfoldable pub read_words : ShellState → String → Option (List String)
read_words between [] = some []
read_words in_word [] = some ([] ∷ [])
read_words escaped [] = none
read_words quoted [] = none
read_words between (c ∷ s) =
    let skipped = read_words between s in
    let opened = read_words quoted s in
    let behind = read_words escaped s in
    let taken = read_words in_word s in
    if c == b' '
    then skipped
    else if c == b'\''
    then opened
    else if c == b'\\'
    then behind
    else if is_literal c
    then put c taken
    else none
read_words in_word (c ∷ s) =
    let ended = read_words between s in
    let opened = read_words quoted s in
    let behind = read_words escaped s in
    let taken = read_words in_word s in
    if c == b' '
    then end_word ended
    else if c == b'\''
    then opened
    else if c == b'\\'
    then behind
    else if is_literal c
    then put c taken
    else none
-- A backslash and a newline behind it are no part of a word.
read_words escaped (c ∷ s) =
    let taken = read_words in_word s in if c == b'\n' then none else put c taken
read_words quoted (c ∷ s) =
    let closed = read_words in_word s in
    let taken = read_words quoted s in if c == b'\'' then closed else put c taken

-- Several bytes at the start of the first word.
abbrev prepend : String → Option (List String) → Option (List String)
prepend [] m = m
prepend (c ∷ s) m = put c (prepend s m)

prepend-some : (s w : String) (ws : List String) → prepend s (some (w ∷ ws)) ≡ some ((s ++ w) ∷ ws)
prepend-some [] w ws = refl
prepend-some (c ∷ s) w ws = ap (put c) (prepend-some s w ws)

-- Quoted text is read up to its closing quote.
read_words-escape_quotes :
    (s rest : String)
    → read_words quoted (escape_quotes s ++ b'\'' ∷ rest) ≡ prepend s (read_words in_word rest)
unfolding read_words
read_words-escape_quotes [] rest = refl
read_words-escape_quotes (c ∷ s) rest = elim (Bool-cases (c == b'\'')) [
  | inl quote ↦
      let same : c ≡ b'\'' = (nat_eq.eqb_iff c b'\'').0 quote in
      rw quote (
        ap (put b'\'') (read_words-escape_quotes s rest)
        ∙ ap (λ t. put t (prepend s (read_words in_word rest))) (sym same))
  | inr other ↦ rw (other, other) (ap (put c) (read_words-escape_quotes s rest))
]

read_words-single_quote :
    (s rest : String)
    → read_words between (single_quote s ++ rest) ≡ prepend s (read_words in_word rest)
unfolding single_quote read_words
read_words-single_quote s rest =
    ap (read_words quoted) (append_assoc (escape_quotes s) (b'\'' ∷ []) rest)
    ∙ read_words-escape_quotes s rest

-- A shell splits a line of quoted words, with a space between any two, into exactly these words, whatever quotes,
-- spaces, dollar signs, newlines or other bytes they hold, and also where a word is empty.
pub read_words-space_join :
    (words : List String) → read_words between (space_join (map single_quote words)) ≡ some words
unfolding read_words
read_words-space_join [] = refl
read_words-space_join (w ∷ []) =
    ap (read_words between) (sym (append-nil (single_quote w)))
    ∙ read_words-single_quote w []
    ∙ prepend-some w [] []
    ∙ ap (λ t. some (t ∷ [])) (append-nil w)
read_words-space_join (w ∷ w' ∷ words) =
    read_words-single_quote w (b' ' ∷ space_join (map single_quote (w' ∷ words)))
    ∙ ap (λ m. prepend w (end_word m)) (read_words-space_join (w' ∷ words))
    ∙ prepend-some w [] (w' ∷ words)
    ∙ ap (λ t. some (t ∷ w' ∷ words)) (append-nil w)
