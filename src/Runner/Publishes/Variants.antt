-- ===== src/Runner/Publishes/Variants.antt =====
-- What a new group or a new variant does to the images and variants of the groups.
use cicada.Base.{
  ℕ, zero, suc, ◌≡◌, refl, sym, ◌∙◌, ap, String, List, [], ◌∷◌, ◌++◌, some, Bool, true, false,
  if◌then◌else◌, not, ◌&&◌, ◌==◌, is_empty, get_elem?, length, contains, position, all, all-append,
  string_eq, arith, inl, inr, Bool-cases, eqb_refl,
}
use cicada.Runner.Publishes.{ImagePublish, PublishGroup, append_variant, new_group}

abbrev pub equal : Bool → Bool → Bool
equal a b = if a then b else not b

module _ {Definition : Type 0} where
  abbrev pub images : List (PublishGroup Definition) → List String
  images [] = []
  images (grp ∷ groups) = grp.image ∷ images groups

  abbrev pub variants_of : List (PublishGroup Definition) → String → List (ImagePublish Definition)
  variants_of [] k = []
  variants_of (grp ∷ groups) k = if k == grp.image then grp.variants else variants_of groups k

  -- The image and the settings of a publish are those of the group.
  unfoldable pub belongs : PublishGroup Definition → ImagePublish Definition → Bool
  belongs grp p =
      p.image == grp.image
      && equal p.push grp.push
      && equal p.insecure grp.insecure
      && equal p.export_docker grp.export_docker

  unfoldable pub fits : PublishGroup Definition → Bool
  unfolding belongs
  fits grp = not (is_empty grp.variants) && all (belongs grp) grp.variants

  pub images-concat :
      (groups : List (PublishGroup Definition)) (grp : PublishGroup Definition)
      → images (groups ++ grp ∷ []) ≡ images groups ++ grp.image ∷ []
  images-concat [] grp = refl
  images-concat (g ∷ groups) grp = ap (λ l. g.image ∷ l) (images-concat groups grp)

  pub length-images :
      (groups : List (PublishGroup Definition)) → length (images groups) ≡ length groups
  length-images [] = refl
  length-images (g ∷ groups) = ap suc (length-images groups)

  pub images-append_variant :
      (p : ImagePublish Definition) (i : ℕ) (groups : List (PublishGroup Definition))
      → images (append_variant p i groups) ≡ images groups
  unfolding append_variant
  images-append_variant p i [] = refl
  images-append_variant p zero (g ∷ groups) = refl
  images-append_variant p (suc i) (g ∷ groups) =
      ap (λ l. g.image ∷ l) (images-append_variant p i groups)

  -- The group of an image that has one.
  pub group_at :
      (groups : List (PublishGroup Definition)) (k : String)
      → contains (images groups) k ≡ true
      → (grp : PublishGroup Definition) × (get_elem? groups (position (images groups) k) ≡ some grp)
        × (grp.image ≡ k)
        × (variants_of groups k ≡ grp.variants)
        × (all fits groups ≡ true → fits grp ≡ true)
  group_at [] k h = cc
  group_at (g ∷ groups) k h = elim (Bool-cases (k == g.image)) [
    | inl this ↦ (
      g,
      rw this refl,
      sym ((string_eq.eqb_iff k g.image).0 this),
      rw this refl,
      λ f. ground (arith, f),
    )
    | inr other ↦
        let (grp, found, named, variants, fit) = group_at groups k (ground (arith, h, other)) in
        (grp, rw other found, named, rw other variants, λ f. fit (ground (arith, f)))
  ]

  pub variants_of-append_variant :
      (p : ImagePublish Definition) (groups : List (PublishGroup Definition)) (j k : String)
      → contains (images groups) k ≡ true
      → variants_of (append_variant p (position (images groups) k) groups) j
        ≡ (if j == k then variants_of groups k ++ p ∷ [] else variants_of groups j)
  unfolding append_variant
  variants_of-append_variant p [] j k h = cc
  variants_of-append_variant p (g ∷ groups) j k h = elim (Bool-cases (k == g.image)) [
    | inl this ↦ rw this (
        ground (
          arith,
          string_eq.eqb_iff k g.image,
          string_eq.eqb_iff j g.image,
          string_eq.eqb_iff j k,
          this,
        ))
    | inr other ↦ rw other (
        ground (
          arith,
          variants_of-append_variant p groups j k (ground (arith, h, other)),
          string_eq.eqb_iff k g.image,
          string_eq.eqb_iff j g.image,
          string_eq.eqb_iff j k,
          other,
        ))
  ]

  pub variants_of-concat :
      (groups : List (PublishGroup Definition)) (grp : PublishGroup Definition) (j : String)
      → contains (images groups) grp.image ≡ false
      → variants_of (groups ++ grp ∷ []) j
        ≡ (if j == grp.image then grp.variants else variants_of groups j)
  variants_of-concat [] grp j h = refl
  variants_of-concat (g ∷ groups) grp j h = ground (
    arith,
    variants_of-concat groups grp j (ground (arith, h)),
    h,
    string_eq.eqb_iff j g.image,
    string_eq.eqb_iff j grp.image,
    string_eq.eqb_iff grp.image g.image,
  )

  pub not_empty-concat :
      (vs : List (ImagePublish Definition)) (p : ImagePublish Definition)
      → is_empty (vs ++ p ∷ []) ≡ false
  not_empty-concat [] p = refl
  not_empty-concat (v ∷ vs) p = refl

  abbrev pub with_variant :
      PublishGroup Definition → ImagePublish Definition → PublishGroup Definition
  with_variant g p = record g { variants = g.variants ++ p ∷ [] }

  pub belongs-with_variant :
      (p : ImagePublish Definition) (g : PublishGroup Definition)
      → belongs (with_variant g p) ≡ belongs g
  unfolding belongs
  belongs-with_variant p g = refl

  pub fits-with_variant :
      (p : ImagePublish Definition) (g : PublishGroup Definition)
      → fits g ≡ true
      → belongs g p ≡ true
      → fits (with_variant g p) ≡ true
  unfolding fits
  fits-with_variant p g f b =
      rw (not_empty-concat g.variants p, belongs-with_variant p g)
        (ground (arith, all-append (belongs g) g.variants (p ∷ []), f, b))

  pub all-fits-append_variant :
      (p : ImagePublish Definition) (groups : List (PublishGroup Definition)) (i : ℕ)
      (grp : PublishGroup Definition)
      → get_elem? groups i ≡ some grp
      → belongs grp p ≡ true
      → all fits groups ≡ true
      → all fits (append_variant p i groups) ≡ true
  unfolding append_variant
  all-fits-append_variant p [] i grp found b f = refl
  all-fits-append_variant p (g ∷ groups) zero grp found b f =
      let same : g ≡ grp = cc in
      ground (arith, f, fits-with_variant p g (ground (arith, f)) (ap (λ x. belongs x p) same ∙ b))
  all-fits-append_variant p (g ∷ groups) (suc i) grp found b f =
      ground (arith, f, all-fits-append_variant p groups i grp found b)

  pub fits-new_group : (p : ImagePublish Definition) → fits (new_group p) ≡ true
  unfolding fits belongs new_group
  fits-new_group p = ground (arith, eqb_refl p.image)

  pub all-fits-concat :
      (groups : List (PublishGroup Definition)) (p : ImagePublish Definition)
      → all fits groups ≡ true
      → all fits (groups ++ new_group p ∷ []) ≡ true
  all-fits-concat groups p f =
      ground (arith, all-append fits groups (new_group p ∷ []), f, fits-new_group p)
