-- ===== src/Builder/Quote.antt =====
-- `singleQuote` and `resolveShell` of internal/builder/builder.go.
use cicada.Base.{
  ℕ, zero, suc, ◌+◌, ◌/◌, ◌%◌, String, str, List, [], ◌∷◌, ◌++◌, Option, none, some, not,
  if◌then◌else◌, ◌==◌, ltb, is_empty, string_eq, nat_eq,
}

-- strings.ReplaceAll(s, "'", "'\\''")
abbrev pub escape_quotes : String → String
escape_quotes [] = []
escape_quotes (c ∷ s) =
    let rest = escape_quotes s in
    if c == b'\'' then b'\'' ∷ b'\\' ∷ b'\'' ∷ b'\'' ∷ rest else c ∷ rest

unfoldable pub single_quote : String → String
single_quote s = b'\'' ∷ escape_quotes s ++ b'\'' ∷ []

abbrev pub default_shell : List String
default_shell = str "/bin/sh" ∷ str "-c" ∷ []

abbrev pub given_shell : Option (List String) → List String
given_shell none = []
given_shell (some shell) = shell

unfoldable pub resolve_shell : Option (List String) → Option (List String) → List String
resolve_shell job_shell step_shell =
    if not (is_empty (given_shell step_shell))
    then given_shell step_shell
    else if not (is_empty (given_shell job_shell))
    then given_shell job_shell
    else default_shell

-- strconv.Itoa, of a number that is not negative
abbrev pub digits : ℕ → ℕ → String
digits zero n = []
digits (suc fuel) n =
    let front = digits fuel (n / 10) in
    if ltb n 10 then (b'0' + n) ∷ [] else front ++ (b'0' + n % 10) ∷ []

abbrev pub itoa : ℕ → String
itoa n = digits (suc n) n

-- strings.Join(words, " ")
abbrev pub space_join : List String → String
space_join [] = []
space_join (w ∷ ws) = let rest = space_join ws in if is_empty ws then w else w ++ b' ' ∷ rest
