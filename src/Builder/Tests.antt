-- ===== src/Builder/Tests.antt =====
-- Quoting, and the build of a parsed pipeline over states that only count their operations.
use cicada.Base.{ℕ, suc, ◌≡◌, refl, str, List, [], ◌∷◌, none, some, map, Bool, true, false}
use cicada.Model.{ok, ◌>>=◌}
use cicada.Parser.Tests.{trees, files, document, result, parse-document}
use cicada.Builder.Llb.{Llb}
use cicada.Builder.Quote.{single_quote, space_join, itoa}
use cicada.Builder.Words.{read_words, between, read_words-space_join}
use cicada.Builder.Build.{BuildOpts, build}
use cicada.Builder.Parsed.{IsBuildable, parse-IsBuildable}

quoted_test : single_quote (str "it's") ≡ str "'it'\\''s'"
unfolding single_quote
quoted_test = refl

itoa_test : itoa 207 ≡ str "207"
itoa_test = refl

split_test :
    read_words between (str "timeout -s 'a b'\\''c'")
    ≡ some (str "timeout" ∷ str "-s" ∷ str "a b'c" ∷ [])
unfolding read_words
split_test = refl

bare_test : read_words between (str "echo $HOME") ≡ none
unfolding read_words
bare_test = refl

read_words-space_join_example :
    read_words between (space_join (map single_quote (str "sh" ∷ [] ∷ str "a 'b' $c" ∷ [])))
    ≡ some (str "sh" ∷ [] ∷ str "a 'b' $c" ∷ [])
read_words-space_join_example = read_words-space_join (str "sh" ∷ [] ∷ str "a 'b' $c" ∷ [])

-- A state is the number of operations behind it; a definition is a state.
abbrev counting : Llb
counting = record {
  State = ℕ;
  Definition = ℕ;
  ImageOption = Bool;
  RunOption = Bool;
  MountOption = Bool;
  LocalOption = Bool;
  Exec = ℕ;
  run = λ st opts. suc st;
  root = λ e. e;
  get_mount = λ e path. e;
  image = λ name opts. 0;
  scratch = 0;
  local_dir = λ name opts. 0;
  set_dir = λ st dir. suc st;
  add_env = λ st k v. suc st;
  make_dir = λ st dir mode. suc st;
  make_file = λ st file mode. suc st;
  copy = λ st dep source target. suc st;
  marshal = λ st. some st;
  parse_platform = λ s. some true;
  ignore_cache_image = false;
  ignore_cache_run = false;
  run_args = λ args. true;
  custom_name = λ n. true;
  add_mount = λ target st opts. true;
  source_path = λ p. true;
  read_only = true;
  persistent_cache_dir = λ id. true;
  secret_env = λ n env. true;
  secret_mount = λ path n. true;
  shared_key_hint = λ hint. true;
  exclude_patterns = λ ps. true;
  path_clean = λ p. p;
  path_base = λ p. p;
  format_seconds = λ t. [];
}

abbrev plain : BuildOpts counting
plain = record {
  no_cache = false;
  no_cache_filter = [];
  exclude_patterns = [];
  meta_resolver = none;
  expose_deps = false;
}

built_names :
    (build counting (λ e. some false) result plain >>= λ r. ok r.job_names)
    ≡ ok (str "compile" ∷ str "pack" ∷ [])
unfolding build
built_names = refl

parse-IsBuildable_example :
    (order : List ℕ) × (result.topo_order ≡ some order)
    × IsBuildable counting trees.check_expr result plain order
parse-IsBuildable_example =
    parse-IsBuildable trees counting (some files) document (str "ci.kdl") result plain
      parse-document
