-- ===== src/Bathroom/Threads/Sums.antt =====
-- Sums over the threads of project3/bathroomsim.c.
use cs3013_operating_systems.Prelude.{
  ℕ, zero, suc, ◌+◌, ◌≤◌, ◌≡◌, refl, ap, some, List, [], ◌∷◌, map, set, get_elem?, arith,
}
use cs3013_operating_systems.Bathroom.Threads.{Position, Thread}

abbrev pub sum_by : (Thread → ℕ) → List Thread → ℕ
sum_by f [] = 0
sum_by f (t ∷ ts) = f t + sum_by f ts

-- A thread that changes changes the sum by its own part.
pub sum_by-set :
    (f : Thread → ℕ) (ts : List Thread) (i : ℕ) (t t' : Thread)
    → get_elem? ts i ≡ some t
    → sum_by f (set ts i t') + f t ≡ sum_by f ts + f t'
sum_by-set f [] i t t' e = cc
sum_by-set f (x ∷ ts) zero t t' e = let same : x ≡ t = cc in omega (arith, ap f same)
sum_by-set f (x ∷ ts) (suc i) t t' e = omega (arith, sum_by-set f ts i t t' e)

pub sum_by-map :
    (f h : Thread → ℕ) (k : Thread → Thread) (ts : List Thread)
    → ((t : Thread) → f (k t) ≡ h t)
    → sum_by f (map k ts) ≡ sum_by h ts
sum_by-map f h k [] e = refl
sum_by-map f h k (t ∷ ts) e = omega (arith, e t, sum_by-map f h k ts e)

-- One thread is no more than all.
pub sum_by-get :
    (f : Thread → ℕ) (ts : List Thread) (i : ℕ) (t : Thread)
    → get_elem? ts i ≡ some t
    → f t ≤ sum_by f ts
sum_by-get f [] i t e = cc
sum_by-get f (x ∷ ts) zero t e = let same : x ≡ t = cc in omega (arith, ap f same)
sum_by-get f (x ∷ ts) (suc i) t e = omega (arith, sum_by-get f ts i t e)

-- A thread that goes from a place to another.
pub changed :
    (f : Position → ℕ → ℕ) (ts : List Thread) (i : ℕ) (t t' : Thread) (p : Position) (left : ℕ)
    → get_elem? ts i ≡ some t
    → t.place ≡ p
    → t.left ≡ left
    → sum_by (λ t. f t.place t.left) (set ts i t') + f p left
      ≡ sum_by (λ t. f t.place t.left) ts + f t'.place t'.left
changed f ts i t t' p left own at_p at_left =
    let was : f t.place t.left ≡ f p left = λ i. f (at_p i) (at_left i) in
    omega (arith, sum_by-set (λ t. f t.place t.left) ts i t t' own, was)
