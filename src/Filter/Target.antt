-- ===== src/Filter/Target.antt =====
-- pkg/pipeline/filter.go: `parseFilterTarget`, which splits "job:step" at the first colon outside
-- brackets.
use cicada.Base.{
  ℕ, zero, suc, String, [], ◌∷◌, ◌++◌, Option, none, some, Bool, true, false, nat_eqb,
  if◌then◌else◌, ◌≡◌, refl, arith,
}

pub record FilterTarget : Type 0 where
  pub job : String
  pub step : String

-- The depth after one byte.
abbrev pub bracket : ℕ → ℕ → ℕ
bracket c depth =
    if nat_eqb c b'['
    then suc depth
    else if nat_eqb c b']'
    then Prim.Native.Nat.pred depth
    else depth

abbrev pub splits_here : ℕ → ℕ → Bool
splits_here c zero = nat_eqb c b':'
splits_here c (suc _) = false

abbrev pub prepend : ℕ → Option FilterTarget → Option FilterTarget
prepend c none = none
prepend c (some t) = some (record t { job = c ∷ t.job })

pub split_target : ℕ → String → Option FilterTarget
split_target depth [] = none
split_target depth (c ∷ s) =
    let rest = prepend c (split_target (bracket c depth) s) in
    if splits_here c depth then some (record { job = []; step = s }) else rest

unfoldable pub parse_filter_target : String → FilterTarget
unfolding split_target
parse_filter_target s = elim (split_target 0 s) [
  | some t ↦ t
  | none ↦ record { job = s; step = [] }
]

-- The depth after a text: what the loop has counted when it reaches the text's end.
abbrev pub depth_after : ℕ → String → ℕ
depth_after depth [] = depth
depth_after depth (c ∷ s) = depth_after (bracket c depth) s

-- No colon of the text stands outside brackets.
abbrev pub colon_free : ℕ → String → Bool
colon_free depth [] = true
colon_free depth (c ∷ s) =
    let rest = colon_free (bracket c depth) s in if splits_here c depth then false else rest

split_target-join :
    (depth : ℕ) (job step : String)
    → colon_free depth job ≡ true
    → depth_after depth job ≡ 0
    → split_target depth (job ++ b':' ∷ step) ≡ some (record { job = job; step = step })
unfolding split_target
split_target-join zero [] step free closed = refl
split_target-join (suc depth) [] step free closed = absurd (ground arith)
split_target-join zero (c ∷ job) step free closed =
    ground (arith, split_target-join (bracket c zero) job step)
split_target-join (suc depth) (c ∷ job) step free closed =
    ground (arith, split_target-join (bracket c (suc depth)) job step)

split_target-free :
    (depth : ℕ) (job : String) → colon_free depth job ≡ true → split_target depth job ≡ none
unfolding split_target
split_target-free depth [] free = refl
split_target-free zero (c ∷ job) free = ground (arith, split_target-free (bracket c zero) job)
split_target-free (suc depth) (c ∷ job) free =
    ground (arith, split_target-free (bracket c (suc depth)) job)

-- A job name whose brackets are balanced and whose colons all stand inside them is read back, alone
-- and in front of a colon and a step, whatever the step's name is.
pub parse_filter_target-join :
    (job step : String)
    → colon_free 0 job ≡ true
    → depth_after 0 job ≡ 0
    → (parse_filter_target job ≡ record { job = job; step = [] })
      × (parse_filter_target (job ++ b':' ∷ step) ≡ record { job = job; step = step })
unfolding parse_filter_target
parse_filter_target-join job step free closed = (
  ground (arith, split_target-free 0 job free),
  ground (arith, split_target-join 0 job step free closed),
)
