-- ===== src/Runner/Publishes/Steps.antt =====
-- A publish opens a group or joins one.
use cicada.Base.{
  ℕ, ◌≡◌, refl, sym, ◌∙◌, ap, String, List, [], ◌∷◌, ◌++◌, none, some, Bool, true, false,
  if◌then◌else◌, ◌==◌, get_elem?, length, lookup, insert, lookup-insert, contains, contains-append,
  distinct, distinct-concat, position, position-append, position-concat, all, keep, string_eq,
  arith, inl, inr, Bool-cases,
}
use cicada.Runner.Publishes.{ImagePublish, PublishGroup, append_variant, new_group}
use cicada.Runner.Publishes.Variants.{
  images, variants_of, belongs, fits, images-concat, length-images, images-append_variant,
  variants_of-append_variant, variants_of-concat, all-fits-append_variant, all-fits-concat,
}

module _ {Definition : Type 0} where
  -- Each group is of an image of its own, all its variants have its settings, and they are the publishes of the image in order.
  pub record IsGrouped (pubs : List (ImagePublish Definition))
      (groups : List (PublishGroup Definition)) : Type 0 where
    pub once : distinct (images groups) ≡ true
    pub settled : all fits groups ≡ true
    pub complete : (k : String) → variants_of groups k ≡ keep (λ p. p.image == k) pubs

  abbrev pub Indexed : List (String × ℕ) → List (PublishGroup Definition) → Type 0
  Indexed idx groups =
      (k : String)
      → lookup idx k
        ≡ (if contains (images groups) k then some (position (images groups) k) else none)

  pub Indexed-new :
      (idx : List (String × ℕ)) (groups : List (PublishGroup Definition))
      (p : ImagePublish Definition)
      → contains (images groups) p.image ≡ false
      → Indexed idx groups
      → Indexed (insert idx p.image (length groups)) (groups ++ new_group p ∷ [])
  unfolding new_group
  Indexed-new idx groups p fresh i k =
      lookup-insert idx p.image k (length groups)
      ∙ placed
      ∙ sym (
          ap (λ names. if contains names k then some (position names k) else none)
            (images-concat groups (new_group p)))
    where
      names : List String
      names = images groups ++ p.image ∷ []

      placed :
          (if k == p.image then some (length groups) else lookup idx k)
          ≡ (if contains names k then some (position names k) else none)
      placed = elim (Bool-cases (k == p.image)) [
        | inl this ↦
            let same : p.image ≡ k = sym ((string_eq.eqb_iff k p.image).0 this) in
            let last : position names k ≡ length groups =
              ap (position names) (sym same)
              ∙ position-concat (images groups) p.image fresh
              ∙ length-images groups in
            rw (this, last) (ground (arith, contains-append (images groups) (p.image ∷ []) k, this))
        | inr other ↦ elim (Bool-cases (contains (images groups) k)) [
          | inl known ↦
              rw (other, position-append (images groups) (p.image ∷ []) k known)
                (ground (arith, contains-append (images groups) (p.image ∷ []) k, known, i k))
          | inr unknown ↦ rw other (
              ground (arith, contains-append (images groups) (p.image ∷ []) k, unknown, other, i k))
        ]
      ]

  pub Indexed-variant :
      (idx : List (String × ℕ)) (groups : List (PublishGroup Definition))
      (p : ImagePublish Definition) (n : ℕ)
      → Indexed idx groups
      → Indexed idx (append_variant p n groups)
  Indexed-variant idx groups p n i k = rw (images-append_variant p n groups) (i k)

  keep-concat :
      (q : ImagePublish Definition → Bool) (pubs : List (ImagePublish Definition))
      (p : ImagePublish Definition)
      → keep q (pubs ++ p ∷ []) ≡ (if q p then keep q pubs ++ p ∷ [] else keep q pubs)
  keep-concat q [] p = refl
  keep-concat q (x ∷ pubs) p = ground (arith, keep-concat q pubs p)

  keep-none :
      (groups : List (PublishGroup Definition)) (k : String)
      → contains (images groups) k ≡ false
      → variants_of groups k ≡ []
  keep-none [] k h = refl
  keep-none (g ∷ groups) k h = ground (arith, h, keep-none groups k)

  pub IsGrouped-new :
      (pubs : List (ImagePublish Definition)) (groups : List (PublishGroup Definition))
      (p : ImagePublish Definition)
      → contains (images groups) p.image ≡ false
      → IsGrouped pubs groups
      → IsGrouped (pubs ++ p ∷ []) (groups ++ new_group p ∷ [])
  unfolding new_group
  IsGrouped-new pubs groups p fresh g = record {
    once =
        rw (images-concat groups (new_group p))
          (distinct-concat (images groups) p.image g.once fresh);
    settled = all-fits-concat groups p g.settled;
    complete = λ k.
        variants_of-concat groups (new_group p) k fresh
        ∙ ground (
          arith,
          keep-concat (λ q. q.image == k) pubs p,
          g.complete k,
          keep-none groups p.image fresh,
          string_eq.eqb_iff k p.image,
          string_eq.eqb_iff p.image k,
        );
  }

  pub IsGrouped-variant :
      (pubs : List (ImagePublish Definition)) (groups : List (PublishGroup Definition))
      (p : ImagePublish Definition) (grp : PublishGroup Definition)
      → contains (images groups) p.image ≡ true
      → get_elem? groups (position (images groups) p.image) ≡ some grp
      → belongs grp p ≡ true
      → IsGrouped pubs groups
      → IsGrouped (pubs ++ p ∷ []) (append_variant p (position (images groups) p.image) groups)
  IsGrouped-variant pubs groups p grp known found b g = record {
    once = rw (images-append_variant p (position (images groups) p.image) groups) g.once;
    settled =
        all-fits-append_variant p groups (position (images groups) p.image) grp found b g.settled;
    complete = λ k.
        variants_of-append_variant p groups k p.image known
        ∙ ground (
          arith,
          keep-concat (λ q. q.image == k) pubs p,
          g.complete k,
          g.complete p.image,
          string_eq.eqb_iff k p.image,
          string_eq.eqb_iff p.image k,
        );
  }
