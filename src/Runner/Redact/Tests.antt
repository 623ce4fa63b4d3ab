-- ===== src/Runner/Redact/Tests.antt =====
-- Two secrets, of which one starts with the other.
use cicada.Base.{◌≡◌, refl, str, String, List, [], ◌∷◌}
use cicada.Runner.Redact.{SolveStatus, redact_status}
use cicada.Runner.Redact.Clean.{IsClean, redact_status-IsClean}

abbrev secrets : List (String × String)
secrets = (str "SHORT", str "ab") ∷ (str "NONE", []) ∷ (str "LONG", str "abc") ∷ []

abbrev status : SolveStatus
status = record {
  logs = str "x abcab y" ∷ [];
  errors = [] ∷ str "ab" ∷ [];
  warnings = record { short = str "abab"; detail = str "ok" ∷ [] } ∷ [];
}

abbrev masked : SolveStatus
masked = record {
  logs = str "x ****** y" ∷ [];
  errors = [] ∷ str "***" ∷ [];
  warnings = record { short = str "******"; detail = str "ok" ∷ [] } ∷ [];
}

masked_test : redact_status status secrets ≡ masked
unfolding redact_status
masked_test = refl

redact_status-IsClean_example : IsClean (str "abc") (redact_status status secrets)
redact_status-IsClean_example = redact_status-IsClean status secrets (str "abc") refl refl
