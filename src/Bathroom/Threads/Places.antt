-- ===== src/Bathroom/Threads/Places.antt =====
-- How many threads of each gender stand at a place of the monitor, in the simulation of
-- project3/bathroomsim.c and in the lists of the system.
use cs3013_operating_systems.Prelude.{
  ℕ, zero, suc, ◌+◌, ◌<◌, ◌≤◌, ◌≡◌, refl, ap, Bool, true, false, some, List, [], ◌∷◌, ◌++◌, map,
  set, get_elem?, arith, length,
}
use cs3013_operating_systems.Bathroom.Monitor.{Gender, male, female, same}
use cs3013_operating_systems.Bathroom.System.{Takes}
use cs3013_operating_systems.Bathroom.Threads.{Position, Thread, wake, wake_place}
use cs3013_operating_systems.Bathroom.Threads.Sums.{sum_by, sum_by-set, sum_by-get}

abbrev pub one_if : Bool → ℕ
one_if true = 1
one_if false = 0

-- How often a gender stands in a list.
abbrev pub number : Gender → List Gender → ℕ
number g [] = 0
number g (x ∷ xs) = one_if (same g x) + number g xs

-- The part of a thread, by its gender and place, in the number of a gender at a place.
abbrev pub is_inside : Gender → Gender → Position → ℕ
is_inside g h (Position.inside waited) = one_if (same g h)
is_inside g h _ = 0

abbrev pub is_waiting : Gender → Gender → Position → ℕ
is_waiting g h Position.waiting = one_if (same g h)
is_waiting g h _ = 0

abbrev pub is_woken : Gender → Gender → Position → ℕ
is_woken g h Position.woken = one_if (same g h)
is_woken g h _ = 0

abbrev pub sum_at : (Gender → Position → ℕ) → List Thread → ℕ
sum_at part ts = sum_by (λ t. part t.gender t.place) ts

pub number_le_length : (g : Gender) (xs : List Gender) → number g xs ≤ length xs
number_le_length g [] = omega arith
number_le_length male (male ∷ xs) = omega (arith, number_le_length male xs)
number_le_length male (female ∷ xs) = omega (arith, number_le_length male xs)
number_le_length female (male ∷ xs) = omega (arith, number_le_length female xs)
number_le_length female (female ∷ xs) = omega (arith, number_le_length female xs)

pub length-number : (xs : List Gender) → length xs ≡ number male xs + number female xs
length-number [] = refl
length-number (male ∷ xs) = omega (arith, length-number xs)
length-number (female ∷ xs) = omega (arith, length-number xs)

same_refl : (g : Gender) → same g g ≡ true
same_refl male = refl
same_refl female = refl

pub take_one :
    (g : Gender) (xs : List Gender) → 0 < number g xs → (ys : List Gender) × Takes g xs ys
take_one g [] h = absurd (omega arith)
take_one male (male ∷ xs) h = (xs, Takes.here xs)
take_one female (female ∷ xs) h = (xs, Takes.here xs)
take_one male (female ∷ xs) h =
    let (ys, t) = take_one male xs (omega arith) in (female ∷ ys, Takes.there female t)
take_one female (male ∷ xs) h =
    let (ys, t) = take_one female xs (omega arith) in (male ∷ ys, Takes.there male t)

pub number-Takes :
    {g : Gender} {xs ys : List Gender} (h : Gender)
    → Takes g xs ys
    → number h xs ≡ one_if (same h g) + number h ys
number-Takes h (Takes.here xs) = refl
number-Takes h (Takes.there x t) = omega (arith, number-Takes h t)

pub number-append :
    (g : Gender) (xs ys : List Gender) → number g (xs ++ ys) ≡ number g xs + number g ys
number-append g [] ys = omega arith
number-append g (x ∷ xs) ys = omega (arith, number-append g xs ys)

pub same_one : (g : Gender) → one_if (same g g) ≡ 1
same_one g = ap one_if (same_refl g)

-- A thread that goes from a place to another.
pub moved :
    (part : Gender → Position → ℕ) (ts : List Thread) (i : ℕ) (t t' : Thread) (p : Position)
    → get_elem? ts i ≡ some t
    → t.place ≡ p
    → sum_at part (set ts i t') + part t.gender p ≡ sum_at part ts + part t'.gender t'.place
moved part ts i t t' p e at_p =
    let was : part t.gender t.place ≡ part t.gender p = ap (part t.gender) at_p in
    omega (arith, sum_by-set (λ t. part t.gender t.place) ts i t t' e, was)

pub at_place :
    (part : Gender → Position → ℕ) (ts : List Thread) (i : ℕ) (t : Thread) (p : Position)
    → get_elem? ts i ≡ some t
    → t.place ≡ p
    → part t.gender p ≤ sum_at part ts
at_place part ts i t p e at_p =
    let was : part t.gender t.place ≡ part t.gender p = ap (part t.gender) at_p in
    omega (arith, sum_by-get (λ t. part t.gender t.place) ts i t e, was)

-- What a signal does to a part.
wake_inside : (g h : Gender) (p : Position) → is_inside g h (wake_place p) ≡ is_inside g h p
wake_inside g h Position.outside = refl
wake_inside g h Position.waiting = refl
wake_inside g h Position.woken = refl
wake_inside g h (Position.inside waited) = refl

wake_waiting : (g h : Gender) (p : Position) → is_waiting g h (wake_place p) ≡ 0
wake_waiting g h Position.outside = refl
wake_waiting g h Position.waiting = refl
wake_waiting g h Position.woken = refl
wake_waiting g h (Position.inside waited) = refl

wake_woken :
    (g h : Gender) (p : Position) → is_woken g h (wake_place p) ≡ is_waiting g h p + is_woken g h p
wake_woken g h Position.outside = refl
wake_woken g h Position.waiting = omega arith
wake_woken g h Position.woken = omega arith
wake_woken g h (Position.inside waited) = refl

pub inside-wake :
    (g : Gender) (ts : List Thread) → sum_at (is_inside g) (map wake ts) ≡ sum_at (is_inside g) ts
inside-wake g [] = refl
inside-wake g (t ∷ ts) = omega (arith, wake_inside g t.gender t.place, inside-wake g ts)

pub waiting-wake : (g : Gender) (ts : List Thread) → sum_at (is_waiting g) (map wake ts) ≡ 0
waiting-wake g [] = refl
waiting-wake g (t ∷ ts) = omega (arith, wake_waiting g t.gender t.place, waiting-wake g ts)

pub woken-wake :
    (g : Gender) (ts : List Thread)
    → sum_at (is_woken g) (map wake ts) ≡ sum_at (is_waiting g) ts + sum_at (is_woken g) ts
woken-wake g [] = refl
woken-wake g (t ∷ ts) = omega (arith, wake_woken g t.gender t.place, woken-wake g ts)

-- A thread after a signal.
pub get_elem?-map-wake :
    (ts : List Thread) (i : ℕ) (t : Thread)
    → get_elem? ts i ≡ some t
    → get_elem? (map wake ts) i ≡ some (wake t)
get_elem?-map-wake [] i t h = cc
get_elem?-map-wake (u ∷ ts) zero t h = let same : u ≡ t = cc in rw same refl
get_elem?-map-wake (u ∷ ts) (suc i) t h = get_elem?-map-wake ts i t h
