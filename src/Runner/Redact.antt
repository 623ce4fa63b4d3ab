-- ===== src/Runner/Redact.antt =====
-- internal/runner/redact.go: secret values in the status of a solve are masked.
pub mod Clean
mod Tests
use cicada.Base.{
  ℕ, zero, suc, ◌-◌, String, str, List, [], ◌∷◌, ◌++◌, Bool, if◌then◌else◌, not, is_empty,
  has_prefix, length, leb, keep, map,
}

abbrev pub redact_mask : String
redact_mask = str "***"

-- strings.ReplaceAll and bytes.ReplaceAll, for an old text that is not empty; `skip` bytes of a match are left.
pub replace_from : String → String → ℕ → String → String
replace_from old new skip [] = []
replace_from old new (suc skip) (c ∷ s) = replace_from old new skip s
replace_from old new zero (c ∷ s) =
    let kept = c ∷ replace_from old new zero s in
    let replaced = new ++ replace_from old new (length old - 1) s in
    if has_prefix (c ∷ s) old then replaced else kept

abbrev pub replace_all : String → String → String → String
replace_all s old new = replace_from old new 0 s

-- `redactBytes`, and `redactString`, which does the same on strings.
pub redact_string : String → List String → String
unfolding replace_from
redact_string s [] = s
redact_string s (v ∷ secrets) = redact_string (replace_all s v redact_mask) secrets

-- slices.SortFunc by descending length; equal lengths come in no fixed order there, here they keep theirs.
pub insert_value : String → List String → List String
insert_value v [] = v ∷ []
insert_value v (w ∷ vs) =
    let rest = insert_value v vs in if leb (length w) (length v) then v ∷ w ∷ vs else w ∷ rest

pub sort_values : List String → List String
unfolding insert_value
sort_values [] = []
sort_values (v ∷ vs) = insert_value v (sort_values vs)

unfoldable pub sorted_secret_values : List (String × String) → List String
unfolding sort_values
sorted_secret_values secrets =
    sort_values (keep (λ v. not (is_empty v)) (map (λ (_, v). v) secrets))

-- What `redactStatus` reads of a `SolveStatus`: the data of the logs, the errors of the vertices, and the warnings.
pub record Warning : Type 0 where
  pub short : String
  pub detail : List String

pub record SolveStatus : Type 0 where
  pub logs : List String
  pub errors : List String
  pub warnings : List Warning

abbrev pub redact_error : List String → String → String
redact_error sorted e = if is_empty e then e else redact_string e sorted

unfoldable pub redact_status : SolveStatus → List (String × String) → SolveStatus
unfolding redact_string sorted_secret_values
redact_status status secrets =
    if is_empty secrets
    then status
    else let sorted = sorted_secret_values secrets in
      let redact = λ (s : String). redact_string s sorted in
      record {
        logs = map redact status.logs;
        errors = map (redact_error sorted) status.errors;
        warnings =
            map (λ (w : Warning). record { short = redact w.short; detail = map redact w.detail })
              status.warnings;
      }
