-- ===== src/Parser/Includes/Depth.antt =====
-- The bound on the depth of includes ends every recursion: the fuel is never used up.
use cicada.Base.{
  ℕ, zero, suc, ◌+◌, ◌≤◌, ◌≡◌, refl, sym, ◌∙◌, ap, Bool, true, false, String, List, [], ◌∷◌, Option,
  none, some, length, length-append, lookup, string_eq, arith, Option-cases, inl, inr, subst,
}
use cicada.Model.{Fragment, Result, ok, err, ◌>>=◌}
use cicada.Params.{Vars}
use cicada.Parser.Outside.{Outside}
use cicada.Parser.Helpers.{NodeType, node_type, each, require_string_arg, dir_of, nt_include}
use cicada.Parser.Includes.Directives.{IncludeDirective, parse_include_node, cache_key}
use cicada.Parser.Includes.State.{
  IncludeState, push, GroupCollector, new_group_collector, add_include, max_include_depth,
}
use cicada.Parser.Includes.Files.{
  Resolver, Resolution, Resolved, resolve_child_include, include_jobs, fragment_child,
  parse_fragment_node, include_fragment, included_node, include_pipeline_file, file_node,
  include_file, parse_document, parse_included_file, named_include, include_content, resolve_with,
  resolve_include,
}
use cicada.Parser.Includes.Balance.{
  Extends, Balanced, included_node-Extends, fragment_child-Extends,
}
use cicada.Parser.Includes.Stack.{push-ok, resolve_include-Balanced}

-- Chains that differ only behind a success.
pub bind-congr {ℓ κ} :
    {A : Type ℓ} {B : Type κ} (m : Result A) (f g : A → Result B)
    → ((a : A) → m ≡ ok a → f a ≡ g a)
    → (m >>= f) ≡ (m >>= g)
bind-congr (err e) f g same = refl
bind-congr (ok a) f g same = same a refl

pub bind-first {ℓ κ} :
    {A : Type ℓ} {B : Type κ} {m m' : Result A} (f : A → Result B) → m ≡ m' → (m >>= f) ≡ (m' >>= f)
bind-first f same = ap (λ m. m >>= f) same

-- Loops whose rounds agree as long as an invariant of the first holds.
pub each-congr {ℓ κ μ} :
    {S : Type ℓ} {N : Type κ} (P : S → Type μ) (step step' : S → N → Result S)
    → ((s : S) (n : N) (s' : S) → P s → step s n ≡ ok s' → P s')
    → ((s : S) (n : N) → P s → step s n ≡ step' s n)
    → (s : S) (nodes : List N) → P s
    → each step s nodes ≡ each step' s nodes
unfolding each
each-congr P step step' keeps same s [] p = refl
each-congr P step step' keeps same s (n ∷ nodes) p =
    bind-congr (step s n) (λ s'. each step s' nodes) (λ s'. each step' s' nodes)
      (λ s' e. each-congr P step step' keeps same s' nodes (keeps s n s' p e))
    ∙ ap (λ m. m >>= λ s'. each step' s' nodes) (same s n p)

-- Two resolutions agree wherever `n` files are open.
abbrev pub AgreeAt : ℕ → Resolution → Resolution → Type 0
AgreeAt n rec rec' =
    (inc : IncludeDirective) (filename : String) (s : IncludeState)
    → length s.ancestors ≡ n
    → rec inc filename s ≡ rec' inc filename s

module _ (o : Outside) (rec rec' : Resolution) (balanced : Balanced rec) (n : ℕ)
    (agree : AgreeAt n rec rec') where
  pub include_jobs-agree :
      (filename : String) (gc : GroupCollector) (s : IncludeState) (node : o.Node)
      → length s.ancestors ≡ n
      → include_jobs o rec filename (gc, s) node ≡ include_jobs o rec' filename (gc, s) node
  unfolding include_jobs resolve_child_include
  include_jobs-agree filename gc s node h =
      ap (λ (m : Result Resolved). m >>= λ ((jobs, inc), s'). ok (add_include jobs inc gc, s'))
        (bind-congr (parse_include_node o node) (λ inc. rec inc filename s)
          (λ inc. rec' inc filename s) (λ inc _. agree inc filename s h))

  included_node-agree :
      (nt : NodeType) (path : String) (gc : GroupCollector) (s : IncludeState) (node : o.Node)
      → length s.ancestors ≡ n
      → included_node o nt rec path (gc, s) node ≡ included_node o nt rec' path (gc, s) node
  unfolding included_node
  included_node-agree nt_include path gc s node h = include_jobs-agree path gc s node h
  included_node-agree _ path gc s node h = refl

  fragment_child-agree :
      (nt : NodeType) (path : String) (frag : Fragment) (gc : GroupCollector) (s : IncludeState)
      (node : o.Node)
      → length s.ancestors ≡ n
      → fragment_child o nt rec path (frag, (gc, s)) node
        ≡ fragment_child o nt rec' path (frag, (gc, s)) node
  unfolding fragment_child
  fragment_child-agree nt_include path frag gc s node h =
      ap (λ (m : Result (GroupCollector × IncludeState)). m >>= λ (gc', s'). ok (frag, (gc', s')))
        (include_jobs-agree path gc s node h)
  fragment_child-agree _ path frag gc s node h = refl

  same_depth :
      {s s' : IncludeState} → Extends s s' → length s.ancestors ≡ n → length s'.ancestors ≡ n
  same_depth e h = ap length e.ancestors ∙ h

  include_pipeline_file-agree :
      (nodes : List o.Node) (path : String) (params : Vars) (s : IncludeState)
      → length s.ancestors ≡ n
      → include_pipeline_file o rec nodes path params s
        ≡ include_pipeline_file o rec' nodes path params s
  unfolding include_pipeline_file
  include_pipeline_file-agree nodes path (p ∷ params) s h = refl
  include_pipeline_file-agree nodes path [] s h = bind-first _ (
      each-congr (λ (acc : GroupCollector × IncludeState). length (acc.1).ancestors ≡ n)
        (λ acc node. included_node o (node_type (o.name node)) rec path acc node)
        (λ acc node. included_node o (node_type (o.name node)) rec' path acc node)
        (λ (g, t) node acc' p e.
          same_depth
            (included_node-Extends o rec balanced (node_type (o.name node)) path g t node e) p)
        (λ (g, t) node p. included_node-agree (node_type (o.name node)) path g t node p)
        (new_group_collector path, s) nodes h)

  parse_fragment_node-agree :
      (node : o.Node) (path : String) (s : IncludeState)
      → length s.ancestors ≡ n
      → parse_fragment_node o rec node path s ≡ parse_fragment_node o rec' node path s
  unfolding parse_fragment_node
  parse_fragment_node-agree node path s h = bind-congr (require_string_arg o node) _ _ (λ name _.
      bind-first _ (
        each-congr
          (λ (acc : Fragment × (GroupCollector × IncludeState)). length (acc.1.1).ancestors ≡ n)
          (λ acc child. fragment_child o (node_type (o.name child)) rec path acc child)
          (λ acc child. fragment_child o (node_type (o.name child)) rec' path acc child)
          (λ (f, (g, t)) child acc' p e.
            same_depth
              (fragment_child-Extends o rec balanced (node_type (o.name child)) path f g t child e)
              p)
          (λ (f, (g, t)) child p.
            fragment_child-agree (node_type (o.name child)) path f g t child p)
          (record { name = name; params = []; jobs = [] }, (new_group_collector path, s))
          (o.children node) h))

  include_file-agree :
      (kind : Option o.Node × Bool) (nodes : List o.Node) (path : String) (params : Vars)
      (s : IncludeState)
      → length s.ancestors ≡ n
      → include_file o kind rec nodes path params s ≡ include_file o kind rec' nodes path params s
  unfolding include_file include_fragment
  include_file-agree (some node, true) nodes path params s h = refl
  include_file-agree (some node, false) nodes path params s h =
      bind-first _ (parse_fragment_node-agree node path s h)
  include_file-agree (none, true) nodes path params s h =
      include_pipeline_file-agree nodes path params s h
  include_file-agree (none, false) nodes path params s h = refl

  include_content-agree :
      (content : o.Content) (path : String) (params : Vars) (s : IncludeState)
      → length s.ancestors ≡ n
      → include_content o rec content path params s ≡ include_content o rec' content path params s
  unfolding include_content parse_included_file
  include_content-agree content path params s h =
      let read : parse_included_file o rec content path params s
          ≡ parse_included_file o rec' content path params s =
        bind-congr (parse_document o content) _ _ (λ nodes _.
          bind-congr
            (each (λ acc node. file_node o (node_type (o.name node)) acc node) (none, false) nodes)
            _ _ (λ kind _. include_file-agree kind nodes path params s h)) in
      elim (Option-cases (lookup s.cache (cache_key path params))) [
        | inl e ↦ ground (arith, e, read)
        | inr (cached, e) ↦ ground (arith, e)
      ]

module _ (o : Outside) (resolver : Resolver o) where
  -- `bottom` stands where the fuel ends.
  pub nested : Resolution → ℕ → Resolution
  nested bottom zero = bottom
  nested bottom (suc fuel) = resolve_with o resolver (nested bottom fuel)

  resolve_with-agree :
      (rec rec' : Resolution) (inc : IncludeDirective) (filename : String) (s : IncludeState)
      → Balanced rec
      → (suc (length s.ancestors) ≤ max_include_depth → AgreeAt (suc (length s.ancestors)) rec rec')
      → resolve_with o resolver rec inc filename s ≡ resolve_with o resolver rec' inc filename s
  unfolding resolve_with
  resolve_with-agree rec rec' inc filename s balanced agree =
      bind-congr (resolver inc.source (dir_of o filename)) _ _ (λ (content, path) _.
        bind-congr (push path s) _ _ (λ s₁ pushed.
          let (_, shallow, opened) = push-ok path s pushed in
          let deeper : length s₁.ancestors ≡ suc (length s.ancestors) =
            ap (λ t. length t.ancestors) (sym opened)
            ∙ length-append s.ancestors (path ∷ [])
            ∙ omega arith in
          let below : suc (length s.ancestors) ≤ max_include_depth = ground (arith, shallow) in
          bind-first (named_include inc) (
            include_content-agree o rec rec' balanced (suc (length s.ancestors)) (agree below)
              content path inc.params s₁ deeper)))

  pub resolve_include-agree :
      (bottom : Resolution) (fuel fuel' n : ℕ)
      → n ≤ max_include_depth
      → suc max_include_depth ≤ fuel + n
      → suc max_include_depth ≤ fuel' + n
      → AgreeAt n (resolve_include o resolver fuel) (nested bottom fuel')
  unfolding resolve_include nested
  resolve_include-agree bottom zero fuel' n le f f' = absurd (omega arith)
  resolve_include-agree bottom (suc fuel) zero n le f f' = absurd (omega arith)
  resolve_include-agree bottom (suc fuel) (suc fuel') n le f f' = λ inc filename s h.
      resolve_with-agree (resolve_include o resolver fuel) (nested bottom fuel') inc filename s
        (resolve_include-Balanced o resolver fuel)
        (λ below.
          let step : suc n ≡ suc (length s.ancestors) = ap suc (sym h) in
          subst (λ k. AgreeAt k (resolve_include o resolver fuel) (nested bottom fuel')) step
            (resolve_include-agree bottom fuel fuel' (suc n) (omega arith) (omega arith)
              (omega arith)))
