-- ===== src/Validate/SecretTargets.antt =====
-- The loop over secret references: what its success says of names and targets.
use cicada.Base.{
  ◌≡◌, ◌⊎◌, Bool, true, false, not, ◌&&◌, ◌||◌, String, List, [], ◌∷◌, none, is_empty, has_prefix,
  all, contains, distinct, disjoint, disjoint-cons, string_eq, arith, map, str, if◌then◌else◌, ◌++◌,
  keep, refl, distinct-append, disjoint-congr,
}
use cicada.Model.{empty_secret_name, unknown_secret, duplicate_secret_ref}
use cicada.Model.{SecretRef, ok, ◌>>=◌, bind-ok, guard-eq-ok}
use cicada.Validate.Names.{posix_identifier}
use cicada.Validate.Checks.{fail_if}
use cicada.Validate.Secrets.{
  Used, nothing_used, validate_ref_target, validate_refs, validate_secret_refs, check_target,
}

-- The env names and mount paths that references inject into, in order.
abbrev pub env_targets : List SecretRef → List String
env_targets refs = keep (λ n. not (is_empty n)) (map (λ r. r.env) refs)

abbrev pub mount_targets : List SecretRef → List String
mount_targets refs = keep (λ n. not (is_empty n)) (map (λ r. r.mount) refs)

abbrev pub ref_names : List SecretRef → List String
ref_names = map (λ r. r.name)

-- Exactly one target, of the right form.
abbrev pub well_targeted : SecretRef → Bool
well_targeted r =
    if is_empty r.mount
    then posix_identifier r.env
    else is_empty r.env && has_prefix r.mount (str "/")

pub record RefsAccepted (declared seen : List String) (refs : List SecretRef) (used used' : Used)
    : Type 0 where
  pub known : all (λ r. contains declared r.name) refs ≡ true
  pub targeted : all well_targeted refs ≡ true
  pub once : (disjoint seen (ref_names refs) && distinct (ref_names refs)) ≡ true
  pub envs : (disjoint used.envs (env_targets refs) && distinct (env_targets refs)) ≡ true
  pub mounts : (disjoint used.mounts (mount_targets refs) && distinct (mount_targets refs)) ≡ true
  pub env_used :
      (n : String) → contains used'.envs n ≡ (contains used.envs n || contains (env_targets refs) n)
  pub mount_used :
      (n : String)
      → contains used'.mounts n ≡ (contains used.mounts n || contains (mount_targets refs) n)

-- One reference: its target is new, and is added to the set of its kind.
record TargetAccepted (r : SecretRef) (used used₁ : Used) : Type 0 where
  target : well_targeted r ≡ true
  env_case :
      (is_empty r.env ≡ true) × (used₁.envs ≡ used.envs)
      ⊎ (is_empty r.env ≡ false)
        × (used₁.envs ≡ r.env ∷ used.envs)
        × (contains used.envs r.env ≡ false)
  mount_case :
      (is_empty r.mount ≡ true) × (used₁.mounts ≡ used.mounts)
      ⊎ (is_empty r.mount ≡ false)
        × (used₁.mounts ≡ r.mount ∷ used.mounts)
        × (contains used.mounts r.mount ≡ false)

validate_ref_target-accepted :
    (r : SecretRef) (used : Used) {used₁ : Used}
    → validate_ref_target r used ≡ ok used₁
    → TargetAccepted r used used₁
unfolding validate_ref_target check_target
validate_ref_target-accepted r used h = ground arith

RefsAccepted-cons :
    (declared seen : List String) (r : SecretRef) (refs : List SecretRef) (used used₁ used' : Used)
    → contains declared r.name ≡ true
    → contains seen r.name ≡ false
    → TargetAccepted r used used₁
    → RefsAccepted declared (r.name ∷ seen) refs used₁ used'
    → RefsAccepted declared seen (r ∷ refs) used used'
RefsAccepted-cons declared seen r refs used used₁ used' known fresh t rest = record {
  known = ground (arith, known, rest.known);
  targeted = ground (arith, t.target, rest.targeted);
  once = ground (arith, fresh, rest.once, disjoint-cons r.name seen (ref_names refs));
  envs = ground (arith, t.env_case, rest.envs, disjoint-cons r.env used.envs (env_targets refs));
  mounts =
      ground
        (arith, t.mount_case, rest.mounts, disjoint-cons r.mount used.mounts (mount_targets refs));
  env_used = λ n. ground (arith, t.env_case, rest.env_used n);
  mount_used = λ n. ground (arith, t.mount_case, rest.mount_used n);
}

pub validate_refs-accepted :
    (declared seen : List String) (refs : List SecretRef) (used : Used) {used' : Used}
    → validate_refs declared seen refs used ≡ ok used'
    → RefsAccepted declared seen refs used used'
unfolding validate_refs
validate_refs-accepted declared seen [] used {used'} h =
    let same : used ≡ used' = cc in
    rw (← same) record {
      known = refl;
      targeted = refl;
      once = refl;
      envs = refl;
      mounts = refl;
      env_used = λ n. ground arith;
      mount_used = λ n. ground arith;
    }
validate_refs-accepted declared seen (r ∷ refs) used {used'} h =
    let checks = fail_if (is_empty r.name) empty_secret_name (
      fail_if (not (contains declared r.name)) unknown_secret
        (fail_if (contains seen r.name) duplicate_secret_ref none)) in
    let next = validate_refs declared (r.name ∷ seen) refs in
    let (passed, h₁) = guard-eq-ok checks (validate_ref_target r used >>= next) h in
    let (used₁, one, rest) = bind-ok (validate_ref_target r used) next h₁ in
    RefsAccepted-cons declared seen r refs used used₁ used' (ground (arith, passed))
      (ground (arith, passed)) (validate_ref_target-accepted r used one)
      (validate_refs-accepted declared (r.name ∷ seen) refs used₁ rest)

-- When the references of a job and then those of one of its steps are accepted, each names a declared
-- secret and has exactly one well-formed target, and no two of them, across both scopes, share an
-- environment variable or a mount path.
pub validate_secret_refs_sound :
    (declared : List String) (job_refs step_refs : List SecretRef) (used used' : Used)
    → validate_secret_refs job_refs declared ≡ ok used
    → validate_refs declared [] step_refs used ≡ ok used'
    → (all (λ r. contains declared r.name) job_refs ≡ true)
      × (all (λ r. contains declared r.name) step_refs ≡ true)
      × (all well_targeted job_refs ≡ true)
      × (all well_targeted step_refs ≡ true)
      × (distinct (env_targets job_refs ++ env_targets step_refs) ≡ true)
      × (distinct (mount_targets job_refs ++ mount_targets step_refs) ≡ true)
validate_secret_refs_sound declared job_refs step_refs used used' h k =
    let a = validate_refs-accepted declared [] job_refs nothing_used h in
    let b = validate_refs-accepted declared [] step_refs used k in
    let envs = disjoint-congr used.envs (env_targets job_refs) (env_targets step_refs) a.env_used in
    let mounts =
      disjoint-congr used.mounts (mount_targets job_refs) (mount_targets step_refs) a.mount_used in
    (
      a.known,
      b.known,
      a.targeted,
      b.targeted,
      ground (
        arith,
        a.envs,
        b.envs,
        envs,
        distinct-append (env_targets job_refs) (env_targets step_refs),
      ),
      ground (
        arith,
        a.mounts,
        b.mounts,
        mounts,
        distinct-append (mount_targets job_refs) (mount_targets step_refs),
      ),
    )
