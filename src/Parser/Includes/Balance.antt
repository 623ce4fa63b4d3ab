-- ===== src/Parser/Includes/Balance.antt =====
-- A resolution leaves the stack of open files as it found it, and forgets no alias.
use cicada.Base.{
  ◌≡◌, refl, sym, ◌∙◌, ap, Bool, true, false, String, List, [], ◌∷◌, ◌++◌, Option, none, some,
  lookup, string_eq, arith, Option-cases, inl, inr, subst,
}
use cicada.Model.{Fragment, Result, ok, ◌>>=◌, bind-ok, guard-eq-ok}
use cicada.Params.{Vars, resolve_params, substitute_params}
use cicada.Parser.Outside.{Outside}
use cicada.Parser.Helpers.{
  NodeType, node_type, each, require_string_arg, name_from_filename, nt_step, nt_job, nt_param,
  nt_include, nt_matrix, nt_env, nt_defaults, nt_secret,
}
use cicada.Parser.Jobs.{parse_job, parse_bare_step}
use cicada.Parser.Includes.Directives.{
  IncludeDirective, parse_include_node, parse_param_node, check_duplicate_param, cache_key,
}
use cicada.Parser.Includes.State.{
  IncludeState, collect_job, remember, GroupCollector, new_group_collector, merge_collected,
  add_include,
}
use cicada.Parser.Includes.Files.{
  Resolution, Resolved, Included, resolve_child_include, include_jobs, fragment_child,
  parse_fragment_node, include_fragment, included_node, include_pipeline_file, file_node,
  include_file, parse_document, parse_included_file, include_content,
}

-- The same open files, and every alias still means what it meant.
pub record Extends (s s' : IncludeState) : Type 0 where
  pub ancestors : s'.ancestors ≡ s.ancestors
  pub ancestor_set : s'.ancestor_set ≡ s.ancestor_set
  pub aliases :
      (a : String) (ts : List String) → lookup s.aliases a ≡ some ts → lookup s'.aliases a ≡ some ts

pub Extends-refl : (s : IncludeState) → Extends s s
Extends-refl s = record { ancestors = refl; ancestor_set = refl; aliases = λ a ts h. h }

pub Extends-trans : {s s' s'' : IncludeState} → Extends s s' → Extends s' s'' → Extends s s''
Extends-trans one two = record {
  ancestors = two.ancestors ∙ one.ancestors;
  ancestor_set = two.ancestor_set ∙ one.ancestor_set;
  aliases = λ a ts h. two.aliases a ts (one.aliases a ts h);
}

-- A loop keeps what each of its rounds keeps.
pub each-keeps {ℓ κ μ} :
    {S : Type ℓ} {N : Type κ} (P : S → Type μ) (step : S → N → Result S)
    → ((s : S) (n : N) (s' : S) → P s → step s n ≡ ok s' → P s')
    → (s : S) (nodes : List N) {s' : S} → P s
    → each step s nodes ≡ ok s'
    → P s'
unfolding each
each-keeps P step keeps s [] p h = subst P (let same : s ≡ _ = cc in same) p
each-keeps P step keeps s (n ∷ nodes) p h =
    let (s₁, e, h₁) = bind-ok (step s n) (λ s'. each step s' nodes) h in
    each-keeps P step keeps s₁ nodes (keeps s n s₁ p e) h₁

abbrev pub Balanced : Resolution → Type 0
Balanced rec =
    (inc : IncludeDirective) (filename : String) (s : IncludeState) (r : Resolved)
    → rec inc filename s ≡ ok r
    → Extends s (r.1)

same_state :
    {gc : GroupCollector} {s : IncludeState} {r : GroupCollector × IncludeState}
    → Path (Result (GroupCollector × IncludeState)) (ok (gc, s)) (ok r)
    → Extends s (r.1)
same_state {gc} {s} {r} h = let same : (gc, s) ≡ r = cc in rw (← same) (Extends-refl s)

-- A call whose result goes into a state that is otherwise kept.
pub kept {ℓ κ} :
    {A : Type ℓ} {B : Type κ} (state : B → IncludeState) (s : IncludeState) (m : Result A)
    (f : A → B) {r : B}
    → ((a : A) → state (f a) ≡ s)
    → (m >>= λ a. ok (f a)) ≡ ok r
    → Extends s (state r)
kept state s m f {r} same h =
    let (a, _, e) = bind-ok m (λ a. ok (f a)) h in
    let done : f a ≡ r = cc in
    subst (λ t. Extends s t) (sym (same a) ∙ ap state done) (Extends-refl s)

module _ (o : Outside) (rec : Resolution) (balanced : Balanced rec) where
  pub include_jobs-Extends :
      (filename : String) (gc : GroupCollector) (s : IncludeState) (node : o.Node)
      {r : GroupCollector × IncludeState}
      → include_jobs o rec filename (gc, s) node ≡ ok r
      → Extends s (r.1)
  unfolding include_jobs resolve_child_include
  include_jobs-Extends filename gc s node {r} h =
      let (((jobs, inc), s'), e, h₁) = bind-ok (resolve_child_include o rec node filename s) _ h in
      let (inc₀, _, h₂) = bind-ok (parse_include_node o node) (λ inc. rec inc filename s) e in
      let same : (add_include jobs inc gc, s') ≡ r = cc in
      rw (← same) (balanced inc₀ filename s ((jobs, inc), s') h₂)

  pub included_node-Extends :
      (nt : NodeType) (path : String) (gc : GroupCollector) (s : IncludeState) (node : o.Node)
      {r : GroupCollector × IncludeState}
      → included_node o nt rec path (gc, s) node ≡ ok r
      → Extends s (r.1)
  unfolding included_node
  included_node-Extends nt_step path gc s node {r} h =
      kept (λ (r : GroupCollector × IncludeState). r.1) s (parse_bare_step o node)
        (λ j. (collect_job j gc, s)) (λ j. refl) h
  included_node-Extends nt_job path gc s node {r} h =
      kept (λ (r : GroupCollector × IncludeState). r.1) s (parse_job o node)
        (λ j. (collect_job j gc, s)) (λ j. refl) h
  included_node-Extends nt_include path gc s node {r} h = include_jobs-Extends path gc s node h
  included_node-Extends nt_matrix path gc s node {r} h = same_state h
  included_node-Extends nt_env path gc s node {r} h = same_state h
  included_node-Extends nt_defaults path gc s node {r} h = same_state h
  included_node-Extends nt_secret path gc s node {r} h = same_state h
  included_node-Extends _ path gc s node {r} h = cc

  pub fragment_child-Extends :
      (nt : NodeType) (path : String) (frag : Fragment) (gc : GroupCollector) (s : IncludeState)
      (node : o.Node) {r : Fragment × (GroupCollector × IncludeState)}
      → fragment_child o nt rec path (frag, (gc, s)) node ≡ ok r
      → Extends s (r.1.1)
  unfolding fragment_child
  fragment_child-Extends nt_param path frag gc s node {r} h =
      let (pd, _, h₁) = bind-ok (parse_param_node o node) _ h in
      let (_, h₂) =
        guard-eq-ok (check_duplicate_param frag.params pd.name)
          (ok (record frag { params = frag.params ++ pd ∷ [] }, (gc, s))) h₁ in
      let same : (record frag { params = frag.params ++ pd ∷ [] }, (gc, s)) ≡ r = cc in
      rw (← same) (Extends-refl s)
  fragment_child-Extends nt_step path frag gc s node {r} h =
      kept (λ (r : Fragment × (GroupCollector × IncludeState)). r.1.1) s (parse_bare_step o node)
        (λ j. (frag, (collect_job j gc, s))) (λ j. refl) h
  fragment_child-Extends nt_job path frag gc s node {r} h =
      kept (λ (r : Fragment × (GroupCollector × IncludeState)). r.1.1) s (parse_job o node)
        (λ j. (frag, (collect_job j gc, s))) (λ j. refl) h
  fragment_child-Extends nt_include path frag gc s node {r} h =
      let ((gc', s'), e, h₁) =
        bind-ok (include_jobs o rec path (gc, s) node) (λ (gc', s'). ok (frag, (gc', s'))) h in
      let same : (frag, (gc', s')) ≡ r = cc in rw (← same) (include_jobs-Extends path gc s node e)
  fragment_child-Extends _ path frag gc s node {r} h = cc

  remembered :
      (key : String) (frag : Fragment) (s s' : IncludeState)
      → Extends s s'
      → Extends s (remember key frag s')
  remembered key frag s s' e = record {
    ancestors = e.ancestors;
    ancestor_set = e.ancestor_set;
    aliases = e.aliases;
  }

  parse_fragment_node-Extends :
      (node : o.Node) (path : String) (s : IncludeState) {r : Fragment × IncludeState}
      → parse_fragment_node o rec node path s ≡ ok r
      → Extends s (r.1)
  unfolding parse_fragment_node
  parse_fragment_node-Extends node path s {r} h =
      let step = λ (acc : Fragment × (GroupCollector × IncludeState)) (child : o.Node).
        fragment_child o (node_type (o.name child)) rec path acc child in
      let (name, _, h₁) = bind-ok (require_string_arg o node) _ h in
      let start : Fragment × (GroupCollector × IncludeState) =
        (record { name = name; params = []; jobs = [] }, (new_group_collector path, s)) in
      let ((frag, (gc, s')), looped, h₂) = bind-ok (each step start (o.children node)) _ h₁ in
      let (merged, _, h₃) =
        bind-ok (merge_collected gc) (λ merged. ok (record frag { jobs = merged }, s')) h₂ in
      let same : (record frag { jobs = merged }, s') ≡ r = cc in
      subst (λ (t : Fragment × IncludeState). Extends s (t.1)) same
        (each-keeps (λ (acc : Fragment × (GroupCollector × IncludeState)). Extends s (acc.1.1)) step
          (λ (f, (g, t)) n acc' e eq.
            Extends-trans e (fragment_child-Extends (node_type (o.name n)) path f g t n eq))
          start (o.children node) (Extends-refl s) looped)

  include_fragment-Extends :
      (node : o.Node) (path : String) (params : Vars) (s : IncludeState) {r : Included}
      → include_fragment o rec node path params s ≡ ok r
      → Extends s (r.1)
  unfolding include_fragment
  include_fragment-Extends node path params s {r} h =
      let ((frag, s'), parsed, h₁) = bind-ok (parse_fragment_node o rec node path s) _ h in
      let (resolved, _, h₂) = bind-ok (resolve_params frag.params params) _ h₁ in
      let jobs = substitute_params frag.jobs resolved in
      let key = cache_key path params in
      let same : ((frag.name, jobs), remember key (record frag { jobs = jobs }) s') ≡ r = cc in
      subst (λ (t : Included). Extends s (t.1)) same
        (remembered key (record frag { jobs = jobs }) s s'
          (parse_fragment_node-Extends node path s parsed))

  include_pipeline_file-Extends :
      (nodes : List o.Node) (path : String) (params : Vars) (s : IncludeState) {r : Included}
      → include_pipeline_file o rec nodes path params s ≡ ok r
      → Extends s (r.1)
  unfolding include_pipeline_file
  include_pipeline_file-Extends nodes path [] s {r} h =
      let step = λ (acc : GroupCollector × IncludeState) (node : o.Node).
        included_node o (node_type (o.name node)) rec path acc node in
      let ((gc, s'), looped, h₁) = bind-ok (each step (new_group_collector path, s) nodes) _ h in
      let (jobs, _, h₂) = bind-ok (merge_collected gc) _ h₁ in
      let loop : Extends s s' =
        each-keeps (λ (acc : GroupCollector × IncludeState). Extends s (acc.1)) step
          (λ (g, t) n acc' e eq.
            Extends-trans e (included_node-Extends (node_type (o.name n)) path g t n eq))
          (new_group_collector path, s) nodes (Extends-refl s) looped in
      let frag : Fragment = record { name = name_from_filename o path; params = []; jobs = jobs } in
      let same : ((frag.name, jobs), remember (cache_key path []) frag s') ≡ r = cc in
      rw (← same) (remembered (cache_key path []) frag s s' loop)
  include_pipeline_file-Extends nodes path (p ∷ params) s {r} h = cc

  include_file-Extends :
      (kind : Option o.Node × Bool) (nodes : List o.Node) (path : String) (params : Vars)
      (s : IncludeState) {r : Included}
      → include_file o kind rec nodes path params s ≡ ok r
      → Extends s (r.1)
  unfolding include_file
  include_file-Extends (some node, true) nodes path params s h = cc
  include_file-Extends (some node, false) nodes path params s h =
      include_fragment-Extends node path params s h
  include_file-Extends (none, true) nodes path params s h =
      include_pipeline_file-Extends nodes path params s h
  include_file-Extends (none, false) nodes path params s h = cc

  pub include_content-Extends :
      (content : o.Content) (path : String) (params : Vars) (s : IncludeState) {r : Included}
      → include_content o rec content path params s ≡ ok r
      → Extends s (r.1)
  unfolding include_content parse_included_file
  include_content-Extends content path params s {r} h =
      elim (Option-cases (lookup s.cache (cache_key path params))) [
        | inr (cached, e) ↦
            let same : ((cached.name, cached.jobs), s) ≡ r = ground (arith, e, h) in
            rw (← same) (Extends-refl s)
        | inl e ↦
            let read : parse_included_file o rec content path params s ≡ ok r =
              ground (arith, e, h) in
            let (nodes, _, h₁) = bind-ok (parse_document o content) _ read in
            let (kind, _, h₂) =
              bind-ok
                (each (λ acc node. file_node o (node_type (o.name node)) acc node) (none, false)
                  nodes)
                _ h₁ in
            include_file-Extends kind nodes path params s h₂
      ]
