-- ===== src/Runner/Publishes/Grouped.antt =====
-- Every publish is in the group of its image.
use cicada.Base.{
  subst, ◌||◌, ℕ, ◌≡◌, refl, sym, ◌∙◌, ap, String, List, [], ◌∷◌, ◌++◌, none, some, Bool, true,
  false, if◌then◌else◌, not, ◌&&◌, ◌==◌, is_empty, get_elem?, length, lookup, insert, contains,
  position, all, all-keep, string_eq, arith, inl, inr, Bool-cases,
}
use mathlib.Core.List.{append-nil, append_assoc}
use cicada.Runner.Publishes.{
  ImagePublish, PublishGroup, Grouping, ok, publish_setting_conflict, index_out_of_range, conflicts,
  append_variant, new_group, group_loop, group_publishes,
}
use cicada.Runner.Publishes.Variants.{equal, images, variants_of, belongs, fits, group_at}
use cicada.Runner.Publishes.Steps.{
  IsGrouped, Indexed, Indexed-new, Indexed-variant, IsGrouped-new, IsGrouped-variant,
}

module _ {Definition : Type 0} where
  -- Publishes of one image have the same settings.
  unfoldable pub agree : ImagePublish Definition → ImagePublish Definition → Bool
  agree p q =
      not (p.image == q.image)
      || equal p.push q.push && equal p.insecure q.insecure && equal p.export_docker q.export_docker

  agree-belongs :
      (p v : ImagePublish Definition) (grp : PublishGroup Definition)
      → grp.image ≡ p.image
      → conflicts p grp ≡ true
      → belongs grp v ≡ true
      → agree p v ≡ false
  unfolding agree belongs conflicts
  agree-belongs p v grp same c b =
      let known : v.image ≡ grp.image =
        (string_eq.eqb_iff v.image grp.image).0 (ground (arith, b)) in
      let shared : (p.image == v.image) ≡ true =
        (string_eq.eqb_iff p.image v.image).1 (sym (known ∙ same)) in
      ground (arith, b, c, shared)

  -- A group's first variant disagrees with what its group conflicts with.
  conflict-disagrees :
      (p : ImagePublish Definition) (grp : PublishGroup Definition)
      → fits grp ≡ true
      → grp.image ≡ p.image
      → conflicts p grp ≡ true
      → all (agree p) grp.variants ≡ false
  unfolding fits
  conflict-disagrees p grp f same c = first grp.variants (ground (arith, f)) (ground (arith, f))
    where
      first :
          (vs : List (ImagePublish Definition))
          → is_empty vs ≡ false
          → all (belongs grp) vs ≡ true
          → all (agree p) vs ≡ false
      first [] filled b = cc
      first (v ∷ vs) filled b = ground (arith, agree-belongs p v grp same c (ground (arith, b)))

  -- A grouping of all publishes, or a conflict where a publish disagrees with an earlier one; no index is out of range.
  unfoldable pub Outcome : List (ImagePublish Definition) → Grouping Definition → Type 0
  unfolding agree
  Outcome pubs (ok groups) = IsGrouped pubs groups
  Outcome pubs publish_setting_conflict =
      (before after : List (ImagePublish Definition)) × (p : ImagePublish Definition) × (pubs
        ≡ before ++ p ∷ after)
      × (all (agree p) before ≡ false)
  Outcome pubs index_out_of_range = true ≡ false

  group_loop-new :
      (idx : List (String × ℕ)) (groups : List (PublishGroup Definition))
      (p : ImagePublish Definition) (pubs : List (ImagePublish Definition))
      → lookup idx p.image ≡ none
      → group_loop idx groups (p ∷ pubs)
        ≡ group_loop (insert idx p.image (length groups)) (groups ++ new_group p ∷ []) pubs
  unfolding group_loop
  group_loop-new idx groups p pubs e = rw (group_loop, e) refl

  group_loop-known :
      (idx : List (String × ℕ)) (groups : List (PublishGroup Definition))
      (p : ImagePublish Definition) (pubs : List (ImagePublish Definition)) (i : ℕ)
      (grp : PublishGroup Definition)
      → lookup idx p.image ≡ some i
      → get_elem? groups i ≡ some grp
      → group_loop idx groups (p ∷ pubs) ≡ (
          if conflicts p grp
          then publish_setting_conflict
          else group_loop idx (append_variant p i groups) pubs)
  unfolding group_loop
  group_loop-known idx groups p pubs i grp e found = rw (group_loop, e, found) refl

  belongs-of :
      (p : ImagePublish Definition) (grp : PublishGroup Definition)
      → p.image ≡ grp.image
      → conflicts p grp ≡ false
      → belongs grp p ≡ true
  unfolding belongs conflicts
  belongs-of p grp same fine = ground (arith, (string_eq.eqb_iff p.image grp.image).1 same, fine)

  conflict-Outcome :
      (done pubs : List (ImagePublish Definition)) (groups : List (PublishGroup Definition))
      (p : ImagePublish Definition) (grp : PublishGroup Definition)
      → IsGrouped done groups
      → grp.image ≡ p.image
      → variants_of groups p.image ≡ grp.variants
      → fits grp ≡ true
      → conflicts p grp ≡ true
      → Outcome (done ++ p ∷ pubs) publish_setting_conflict
  unfolding Outcome
  conflict-Outcome done pubs groups p grp g named variants fit c = (done, pubs, p, refl, disagrees)
    where
      disagrees : all (agree p) done ≡ false
      disagrees = elim (Bool-cases (all (agree p) done)) [
        | inr fails ↦ fails
        | inl every ↦
            let among : all (agree p) grp.variants ≡ true =
              ap (all (agree p)) (sym variants ∙ g.complete p.image)
              ∙ all-keep (agree p) (λ q. q.image == p.image) done every in
            every ∙ (sym among ∙ conflict-disagrees p grp fit named c)
      ]

  group_loop-Outcome :
      (done pubs : List (ImagePublish Definition)) (idx : List (String × ℕ))
      (groups : List (PublishGroup Definition))
      → Indexed idx groups
      → IsGrouped done groups
      → Outcome (done ++ pubs) (group_loop idx groups pubs)
  unfolding Outcome group_loop
  group_loop-Outcome done [] idx groups i g =
      subst (λ l. IsGrouped l groups) (sym (append-nil done)) g
  group_loop-Outcome done (p ∷ pubs) idx groups i g =
      elim (Bool-cases (contains (images groups) p.image))
        as (λ _. Outcome (done ++ p ∷ pubs) (group_loop idx groups (p ∷ pubs))) [
          | inr fresh ↦
              subst (λ l. Outcome l (group_loop idx groups (p ∷ pubs)))
                (append_assoc done (p ∷ []) pubs)
                (subst (Outcome ((done ++ p ∷ []) ++ pubs))
                  (sym (group_loop-new idx groups p pubs (i p.image ∙ rw fresh refl)))
                  (group_loop-Outcome (done ++ p ∷ []) pubs (insert idx p.image (length groups))
                    (groups ++ new_group p ∷ []) (Indexed-new idx groups p fresh i)
                    (IsGrouped-new done groups p fresh g)))
          | inl known ↦
              let (grp, found, named, variants, fit) = group_at groups p.image known in
              let step : group_loop idx groups (p ∷ pubs) ≡ (
                  if conflicts p grp
                  then publish_setting_conflict
                  else group_loop idx (append_variant p (position (images groups) p.image) groups)
                      pubs) =
                group_loop-known idx groups p pubs (position (images groups) p.image) grp
                  (i p.image ∙ rw known refl) found in
              subst (Outcome (done ++ p ∷ pubs)) (sym step) (elim (Bool-cases (conflicts p grp)) [
                | inl c ↦
                    rw c
                      (conflict-Outcome done pubs groups p grp g named variants (fit g.settled) c)
                | inr fine ↦ rw fine (
                    subst
                      (λ l. Outcome l (
                        group_loop idx (append_variant p (position (images groups) p.image) groups)
                          pubs))
                      (append_assoc done (p ∷ []) pubs)
                      (group_loop-Outcome (done ++ p ∷ []) pubs idx
                        (append_variant p (position (images groups) p.image) groups)
                        (Indexed-variant idx groups p (position (images groups) p.image) i)
                        (IsGrouped-variant done groups p grp known found
                          (belongs-of p grp (sym named) fine) g)))
              ])
        ]

  -- Publishes are grouped by image, or there is a conflict, in which case some publish differs in its settings from
  -- an earlier one of its image. The groups are of distinct images, the variants of each have the group's settings,
  -- and they are the publishes of its image in order. No index is out of range.
  pub group_publishes-Outcome :
      (pubs : List (ImagePublish Definition)) → Outcome pubs (group_publishes pubs)
  unfolding group_publishes
  group_publishes-Outcome pubs =
      group_loop-Outcome [] pubs [] [] (λ k. refl)
        record { once = refl; settled = refl; complete = λ k. refl }
