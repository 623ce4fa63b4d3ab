-- ===== src/Graph/Marks.antt =====
-- The states of the search: how many jobs are unvisited, and what one write changes.
use cicada.Base.{
  ℕ, zero, suc, ◌+◌, ◌≡◌, refl, ◌<◌, Bool, true, false, List, [], ◌∷◌, length, get_or, set, arith,
  replicate, ◌⊎◌, inl, inr,
}
use cicada.Graph.{Mark, unvisited, visiting, visited}

abbrev pub is_visited : Mark → Bool
is_visited visited = true
is_visited _ = false

abbrev pub is_visiting : Mark → Bool
is_visiting visiting = true
is_visiting _ = false

abbrev pub weight : Mark → ℕ
weight unvisited = 1
weight _ = 0

abbrev pub unseen : List Mark → ℕ
unseen [] = 0
unseen (m ∷ ms) = weight m + unseen ms

pub unseen-set :
    (ms : List Mark) (i : ℕ) (m : Mark)
    → i < length ms
    → unseen (set ms i m) + weight (get_or ms i unvisited) ≡ unseen ms + weight m
unseen-set [] i m h = absurd (omega arith)
unseen-set (x ∷ ms) zero m h = omega arith
unseen-set (x ∷ ms) (suc i) m h = omega (arith, unseen-set ms i m (omega arith))

pub unseen-replicate : (n : ℕ) → unseen (replicate n unvisited) ≡ n
unseen-replicate zero = refl
unseen-replicate (suc n) = omega (arith, unseen-replicate n)

pub get_or-replicate : (n i : ℕ) → get_or (replicate n unvisited) i unvisited ≡ unvisited
get_or-replicate zero i = refl
get_or-replicate (suc n) zero = refl
get_or-replicate (suc n) (suc i) = get_or-replicate n i

pub Mark-cases : (m : Mark) → (m ≡ visited) ⊎ (m ≡ visiting) ⊎ (m ≡ unvisited)
Mark-cases visited = inl refl
Mark-cases visiting = inr (inl refl)
Mark-cases unvisited = inr (inr refl)
