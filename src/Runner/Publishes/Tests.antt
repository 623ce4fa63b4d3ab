-- ===== src/Runner/Publishes/Tests.antt =====
-- Two variants of one image around an image of its own, and a variant with other settings.
use cicada.Base.{ℕ, ◌≡◌, refl, str, String, List, [], ◌∷◌, some, Bool, true, false}
use cicada.Runner.Publishes.{
  ImagePublish, PublishGroup, ok, publish_setting_conflict, group_publishes,
}
use cicada.Runner.Publishes.Grouped.{Outcome, group_publishes-Outcome}

abbrev publish : String → String → Bool → ImagePublish ℕ
publish job_name image push = record {
  definition = some 1;
  job_name = job_name;
  image = image;
  push = push;
  insecure = false;
  export_docker = false;
  platform = str "linux/amd64";
}

abbrev group : String → List (ImagePublish ℕ) → PublishGroup ℕ
group image variants = record {
  image = image;
  push = true;
  insecure = false;
  export_docker = false;
  variants = variants;
}

abbrev api : ImagePublish ℕ
api = publish (str "api") (str "app") true

abbrev arm : ImagePublish ℕ
arm = publish (str "arm") (str "app") true

abbrev tool : ImagePublish ℕ
tool = publish (str "tool") (str "tool") true

abbrev local : ImagePublish ℕ
local = publish (str "local") (str "app") false

grouped_test :
    group_publishes (api ∷ tool ∷ arm ∷ [])
    ≡ ok (group (str "app") (api ∷ arm ∷ []) ∷ group (str "tool") (tool ∷ []) ∷ [])
unfolding group_publishes
grouped_test = refl

conflict_test : group_publishes (api ∷ tool ∷ local ∷ []) ≡ publish_setting_conflict
unfolding group_publishes
conflict_test = refl

group_publishes-Outcome_example :
    Outcome (api ∷ tool ∷ arm ∷ local ∷ []) (group_publishes (api ∷ tool ∷ arm ∷ local ∷ []))
group_publishes-Outcome_example = group_publishes-Outcome (api ∷ tool ∷ arm ∷ local ∷ [])
