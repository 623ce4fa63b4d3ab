-- ===== src/Runner/Publishes.antt =====
-- `groupPublishes` of internal/runner/export.go: the publishes of one image form a group.
pub mod Variants
pub mod Steps
pub mod Grouped
mod Tests
use cicada.Base.{
  ℕ, zero, suc, String, List, [], ◌∷◌, ◌++◌, Option, none, some, Bool, true, false, if◌then◌else◌,
  not, ◌&&◌, ◌||◌, get_elem?, length, lookup, insert, string_eq,
}

-- `rm.ImagePublish`, over the definitions of the LLB library.
pub record ImagePublish (Definition : Type 0) : Type 0 where
  pub definition : Option Definition
  pub job_name : String
  pub image : String
  pub push : Bool
  pub insecure : Bool
  pub export_docker : Bool
  pub platform : String

pub record PublishGroup (Definition : Type 0) : Type 0 where
  pub image : String
  pub push : Bool
  pub insecure : Bool
  pub export_docker : Bool
  pub variants : List (ImagePublish Definition)

-- How the grouping ends; an index out of range is a panic.
pub data Grouping (Definition : Type 0) : Type 0 where
  ok : List (PublishGroup Definition) → Grouping Definition
  publish_setting_conflict : Grouping Definition
  index_out_of_range : Grouping Definition

abbrev pub differ : Bool → Bool → Bool
differ a b = if a then not b else b

module _ {Definition : Type 0} where
  unfoldable pub conflicts : ImagePublish Definition → PublishGroup Definition → Bool
  conflicts publish grp =
      differ publish.push grp.push
      || differ publish.insecure grp.insecure
      || differ publish.export_docker grp.export_docker

  unfoldable pub append_variant :
      ImagePublish Definition → ℕ → List (PublishGroup Definition) → List (PublishGroup Definition)
  append_variant publish i [] = []
  append_variant publish zero (grp ∷ groups) =
      record grp { variants = grp.variants ++ publish ∷ [] } ∷ groups
  append_variant publish (suc i) (grp ∷ groups) = grp ∷ append_variant publish i groups

  unfoldable pub new_group : ImagePublish Definition → PublishGroup Definition
  new_group publish = record {
    image = publish.image;
    push = publish.push;
    insecure = publish.insecure;
    export_docker = publish.export_docker;
    variants = publish ∷ [];
  }

  unfoldable pub group_loop :
      List (String × ℕ)
      → List (PublishGroup Definition)
      → List (ImagePublish Definition)
      → Grouping Definition
  unfolding conflicts append_variant new_group
  group_loop idx groups [] = ok groups
  group_loop idx groups (publish ∷ pubs) =
      elim (lookup idx publish.image) as (λ _. Grouping Definition) [
        | none ↦
            group_loop (insert idx publish.image (length groups)) (groups ++ new_group publish ∷ [])
              pubs
        | some i ↦ elim (get_elem? groups i) as (λ _. Grouping Definition) [
          | none ↦ index_out_of_range
          | some grp ↦
              let rest = group_loop idx (append_variant publish i groups) pubs in
              if conflicts publish grp then publish_setting_conflict else rest
        ]
      ]

  unfoldable pub group_publishes : List (ImagePublish Definition) → Grouping Definition
  unfolding group_loop
  group_publishes pubs = group_loop [] [] pubs
