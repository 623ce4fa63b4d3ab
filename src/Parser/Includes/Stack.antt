-- ===== src/Parser/Includes/Stack.antt =====
-- `push` and the deferred `pop` of a resolution, and what it registers.
use cicada.Base.{
  ℕ, zero, suc, leb, length, ◌≡◌, refl, sym, ◌∙◌, ap, false, not, if◌then◌else◌, ◌==◌, String, List,
  [], ◌∷◌, ◌++◌, none, some, is_empty, contains, keep, lookup, insert, lookup-insert, string_eq,
  arith, Option-cases, Bool-cases, inl, inr, eqb_refl, subst,
}
use cicada.Model.{Job, ok, bind-ok}
use cicada.Merge.{terminal_jobs}
use cicada.Parser.Outside.{Outside}
use cicada.Parser.Helpers.{dir_of}
use cicada.Parser.Includes.Directives.{IncludeDirective}
use cicada.Parser.Includes.State.{
  IncludeState, max_include_depth, push, pop, but_last, last_of, register_alias,
}
use cicada.Parser.Includes.Files.{
  Resolver, Resolution, Resolved, named_include, include_content, resolve_with, resolve_include,
}
use cicada.Parser.Includes.Balance.{Extends, Balanced, include_content-Extends}

-- `pop` behind `push`.
but_last-append :
    (xs : List String) (x : String) → (but_last (xs ++ x ∷ []) ≡ xs) × (last_of (xs ++ x ∷ []) ≡ x)
but_last-append [] x = (refl, refl)
but_last-append (y ∷ []) x = (refl, refl)
but_last-append (y ∷ z ∷ xs) x =
    let (front, last) = but_last-append (z ∷ xs) x in (ap (λ t. y ∷ t) front, last)

keep_absent :
    (xs : List String) (x : String) → contains xs x ≡ false → keep (λ p. not (p == x)) xs ≡ xs
keep_absent [] x h = refl
keep_absent (y ∷ xs) x h =
    ground (arith, h, keep_absent xs x, string_eq.eqb_iff x y, string_eq.eqb_iff y x)

keep_absent-cons :
    (xs : List String) (x : String) → contains xs x ≡ false → keep (λ p. not (p == x)) (x ∷ xs) ≡ xs
keep_absent-cons xs x h = rw (eqb_refl x) (keep_absent xs x h)

register_alias-ok :
    (alias : String) (ts : List String) (s : IncludeState) {s' : IncludeState}
    → register_alias alias ts s ≡ ok s'
    → (lookup s.aliases alias ≡ none) × (record s { aliases = insert s.aliases alias ts } ≡ s')
unfolding register_alias
register_alias-ok alias ts s {s'} h = elim (Option-cases (lookup s.aliases alias)) [
  | inl fresh ↦ (fresh, ground (arith, fresh, h))
  | inr (_, taken) ↦ absurd (ground (arith, taken, h))
]

pub push-ok :
    (path : String) (s : IncludeState) {s' : IncludeState}
    → push path s ≡ ok s'
    → (contains s.ancestor_set path ≡ false)
      × (leb max_include_depth (length s.ancestors) ≡ false)
      × (record s { ancestors = s.ancestors ++ path ∷ []; ancestor_set = path ∷ s.ancestor_set }
          ≡ s')
unfolding push
push-ok path s {s'} h = elim (Bool-cases (contains s.ancestor_set path)) [
  | inl open_already ↦ absurd (ground (arith, open_already, h))
  | inr closed ↦ elim (Bool-cases (leb max_include_depth (length s.ancestors))) [
    | inl deep ↦ absurd (ground (arith, closed, deep, h))
    | inr shallow ↦ (closed, shallow, ground (arith, closed, shallow, h))
  ]
]

-- The alias is new and stands for the jobs; nothing else has changed.
pub record Named (s s' : IncludeState) (alias : String) (ts : List String) : Type 0 where
  pub extends : Extends s s'
  pub named : lookup s'.aliases alias ≡ some ts
  pub fresh : lookup s.aliases alias ≡ none

pop-Named :
    (path alias : String) (ts : List String) (s s₁ s₂ s₃ : IncludeState)
    → push path s ≡ ok s₁
    → Extends s₁ s₂
    → register_alias alias ts s₂ ≡ ok s₃
    → Named s (pop s₃) alias ts
unfolding pop
pop-Named path alias ts s s₁ s₂ s₃ pushed inside registered =
    let (closed, _, opened) = push-ok path s pushed in
    let (free, written) = register_alias-ok alias ts s₂ registered in
    let stack : s₂.ancestors ≡ s.ancestors ++ path ∷ [] =
      inside.ancestors ∙ ap (λ t. t.ancestors) (sym opened) in
    let set : s₂.ancestor_set ≡ path ∷ s.ancestor_set =
      inside.ancestor_set ∙ ap (λ t. t.ancestor_set) (sym opened) in
    let same_stack : s₃.ancestors ≡ s.ancestors ++ path ∷ [] =
      ap (λ t. t.ancestors) (sym written) ∙ stack in
    let same_set : s₃.ancestor_set ≡ path ∷ s.ancestor_set =
      ap (λ t. t.ancestor_set) (sym written) ∙ set in
    let (front, last) = but_last-append s.ancestors path in
    let stored : (a : String)
        → lookup s₃.aliases a ≡ (if a == alias then some ts else lookup s₂.aliases a) =
      λ a. ap (λ t. lookup t.aliases a) (sym written) ∙ lookup-insert s₂.aliases alias a ts in
    let older : (a : String) (vs : List String)
        → lookup s.aliases a ≡ some vs
        → lookup s₂.aliases a ≡ some vs =
      λ a vs h. inside.aliases a vs (ap (λ t. lookup t.aliases a) (sym opened) ∙ h) in
    record {
      extends = record {
        ancestors = ap but_last same_stack ∙ front;
        ancestor_set =
            ap (λ t. keep (λ p. not (p == last_of s₃.ancestors)) t) same_set
            ∙ ap (λ x. keep (λ p. not (p == x)) (path ∷ s.ancestor_set))
                (ap last_of same_stack ∙ last)
            ∙ keep_absent-cons s.ancestor_set path closed;
        aliases =
            λ a vs h. stored a ∙ ground (arith, older a vs h, free, string_eq.eqb_iff a alias);
      };
      named = stored alias ∙ rw (eqb_refl alias) refl;
      fresh = elim (Option-cases (lookup s.aliases alias)) [
        | inl none_yet ↦ none_yet
        | inr (vs, taken) ↦ absurd (ground (arith, older alias vs taken, free))
      ];
    }

module _ (o : Outside) (resolver : Resolver o) (rec : Resolution) (balanced : Balanced rec) where
  -- A resolution, from its `push` on.
  pub resolve_with-Named :
      (inc : IncludeDirective) (filename : String) (s : IncludeState) (r : Resolved)
      → resolve_with o resolver rec inc filename s ≡ ok r
      → Named s (r.1) ((r.0).1).alias (terminal_jobs ((r.0).0))
  unfolding resolve_with named_include
  resolve_with-Named inc filename s r h =
      let ((content, path), _, h₁) = bind-ok (resolver inc.source (dir_of o filename)) _ h in
      let (s₁, pushed, h₂) = bind-ok (push path s) _ h₁ in
      let (((name, js), s₂), read, h₃) =
        bind-ok (include_content o rec content path inc.params s₁) (named_include inc) h₂ in
      let alias = if is_empty inc.alias then name else inc.alias in
      let (s₃, registered, h₄) = bind-ok (register_alias alias (terminal_jobs js) s₂) _ h₃ in
      let same : Path Resolved ((js, record inc { alias = alias }), pop s₃) r = cc in
      subst (λ (t : Resolved). Named s (t.1) ((t.0).1).alias (terminal_jobs ((t.0).0))) same
        (pop-Named path alias (terminal_jobs js) s s₁ s₂ s₃ pushed
          (include_content-Extends o rec balanced content path inc.params s₁ read) registered)

module _ (o : Outside) (resolver : Resolver o) where
  pub resolve_include-Balanced : (fuel : ℕ) → Balanced (resolve_include o resolver fuel)
  unfolding resolve_include
  resolve_include-Balanced zero inc filename s r h = cc
  resolve_include-Balanced (suc fuel) inc filename s r h =
      (resolve_with-Named o resolver (resolve_include o resolver fuel)
        (resolve_include-Balanced fuel) inc filename s r h).extends

  -- A resolved include leaves the stack of open files as it found it, keeps every alias, and registers one that was
  -- not in use and stands for exactly the terminal jobs of the jobs that it returns.
  pub resolve_include-Named :
      (fuel : ℕ) (inc : IncludeDirective) (from_file : String) (s s' : IncludeState)
      (jobs : List Job) (inc' : IncludeDirective)
      → resolve_include o resolver fuel inc from_file s ≡ ok ((jobs, inc'), s')
      → Named s s' inc'.alias (terminal_jobs jobs)
  unfolding resolve_include
  resolve_include-Named zero inc from_file s s' jobs inc' h = cc
  resolve_include-Named (suc fuel) inc from_file s s' jobs inc' h =
      resolve_with-Named o resolver (resolve_include o resolver fuel)
        (resolve_include-Balanced fuel) inc from_file s ((jobs, inc'), s') h
