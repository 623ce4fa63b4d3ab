-- ===== src/Validate/Names.antt =====
-- The regular expressions of pkg/pipeline: `_validName` and `_validDimName` of pipeline.go and
-- `_posixIdentifier` of secret.go, as automata over bytes.
use cicada.Base.{ℕ, String, [], ◌∷◌, Bool, true, false, ◌&&◌, ◌||◌, leb, nat_eqb, if◌then◌else◌}

abbrev pub is_letter : ℕ → Bool
is_letter c = leb b'a' c && leb c b'z' || leb b'A' c && leb c b'Z'

abbrev pub is_digit : ℕ → Bool
is_digit c = leb b'0' c && leb c b'9'

-- [a-zA-Z0-9_-]
abbrev pub is_word : ℕ → Bool
is_word c = is_letter c || is_digit c || nat_eqb c b'_' || nat_eqb c b'-'

-- [a-zA-Z0-9_.:/\-]
abbrev pub is_value : ℕ → Bool
is_value c = is_word c || nat_eqb c b'.' || nat_eqb c b':' || nat_eqb c b'/'

-- What has been read: nothing, a base name, an empty or a filled key or value, the closing bracket.
pub data NameState : Type 0 where
  start base key_start key value_start value closed reject : NameState

abbrev pub name_step : NameState → ℕ → NameState
name_step start c = if is_word c then base else reject
name_step base c = if is_word c then base else if nat_eqb c b'[' then key_start else reject
name_step key_start c = if is_value c then key else reject
name_step key c =
    if is_value c
    then key
    else if nat_eqb c b'='
    then value_start
    else if nat_eqb c b','
    then key_start
    else if nat_eqb c b']'
    then closed
    else reject
name_step value_start c = if is_value c then value else reject
name_step value c =
    if is_value c
    then value
    else if nat_eqb c b','
    then key_start
    else if nat_eqb c b']'
    then closed
    else reject
name_step closed c = reject
name_step reject c = reject

abbrev pub accepts : NameState → Bool
accepts base = true
accepts closed = true
accepts _ = false

unfoldable pub run_name : NameState → String → NameState
run_name q [] = q
run_name q (c ∷ s) = run_name (name_step q c) s

unfoldable pub valid_name : String → Bool
unfolding run_name
valid_name s = accepts (run_name start s)

unfoldable pub all_word : String → Bool
all_word [] = true
all_word (c ∷ s) = is_word c && all_word s

unfoldable pub valid_dim_name : String → Bool
unfolding all_word
valid_dim_name [] = false
valid_dim_name (c ∷ s) = is_word c && all_word s

unfoldable pub all_identifier : String → Bool
all_identifier [] = true
all_identifier (c ∷ s) = (is_letter c || is_digit c || nat_eqb c b'_') && all_identifier s

unfoldable pub posix_identifier : String → Bool
unfolding all_identifier
posix_identifier [] = false
posix_identifier (c ∷ s) = (is_letter c || nat_eqb c b'_') && all_identifier s
