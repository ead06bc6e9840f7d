-- ===== src/Commander/Queue/Laws.antt =====
-- The entries of the background queue of project1/mc2.c after its loops.
use cs3013_operating_systems.Prelude.{
  ℕ, zero, suc, ◌+◌, ◌-◌, ◌<◌, ◌≤◌, ◌≡◌, ◌≢◌, refl, ◌∙◌, ◌⊎◌, Option, none, some, List, [], ◌∷◌,
  arith, length, get_elem?, get_or, set, false, ◌==◌, if◌then◌else◌, ap, sym, Option-cases,
  length-set, get_elem?-set_ne, get_elem?-set_self, get_elem?_of_lt, ℕ_discrete,
  lt-length_of_get_elem?,
}
use cs3013_operating_systems.Commander.Queue.{
  max_back, clear_pid, zero_index, shift_loop, remove_background,
}

-- `q` is in the list.
abbrev pub In : ℕ → List ℕ → Type 0
In q xs = (i : ℕ) × (get_elem? xs i ≡ some q)

get_elem?_cases :
    (xs : List ℕ) (i : ℕ) → (get_elem? xs i ≡ none) ⊎ ((a : ℕ) × (get_elem? xs i ≡ some a))
get_elem?_cases xs i = Option-cases (get_elem? xs i)

get_or-eq : (xs : List ℕ) (i d a : ℕ) → get_elem? xs i ≡ some a → get_or xs i d ≡ a
get_or-eq [] i d a e = cc
get_or-eq (x ∷ xs) zero d a e = cc
get_or-eq (x ∷ xs) (suc i) d a e = get_or-eq xs i d a e

pub length-shift_loop : (n i : ℕ) (xs : List ℕ) → length (shift_loop n i xs) ≡ length xs
unfolding shift_loop
length-shift_loop zero i xs = refl
length-shift_loop (suc n) i xs = length-shift_loop n (i + 1) _ ∙ length-set xs i _

-- The entries from `i` on move down by one; the last one stays where it is, too.
shift_loop_before :
    (n i j : ℕ) (xs : List ℕ) → j < i → get_elem? (shift_loop n i xs) j ≡ get_elem? xs j
unfolding shift_loop
shift_loop_before zero i j xs h = refl
shift_loop_before (suc n) i j xs h =
    shift_loop_before n (i + 1) j _ (omega arith)
    ∙ get_elem?-set_ne xs {i = i} {j = j} _ (λ e. omega (arith, e))

shift_loop_after :
    (n i j : ℕ) (xs : List ℕ) → i + n ≤ j → get_elem? (shift_loop n i xs) j ≡ get_elem? xs j
unfolding shift_loop
shift_loop_after zero i j xs h = refl
shift_loop_after (suc n) i j xs h =
    shift_loop_after n (i + 1) j _ (omega arith)
    ∙ get_elem?-set_ne xs {i = i} {j = j} _ (λ e. omega (arith, e))

shift_loop_moved :
    (n i j : ℕ) (xs : List ℕ)
    → i ≤ j
    → j < i + n
    → i + n < length xs
    → get_elem? (shift_loop n i xs) j ≡ get_elem? xs (j + 1)
unfolding shift_loop
shift_loop_moved zero i j xs low high h = absurd (omega arith)
shift_loop_moved (suc n) i j xs low high h = elim (ℕ_discrete i j) [
  | yes e ↦
      (let (a, found) = get_elem?_of_lt xs (i + 1) (omega arith) in
        rw (← e) (
          shift_loop_before n (i + 1) i _ (omega arith)
          ∙ get_elem?-set_self xs i _ (omega arith)
          ∙ ap some (get_or-eq xs (i + 1) 0 a found)
          ∙ sym found))
  | no ne ↦
      shift_loop_moved n (i + 1) j _ (omega arith) (omega arith) (rw length-set (omega arith))
      ∙ get_elem?-set_ne xs {i = i} {j = j + 1} _ (λ e. omega (arith, e))
]

-- `removebackground` clears the pid.
pub clear_pid-get :
    (pid : ℕ) (xs : List ℕ) (j a : ℕ)
    → get_elem? xs j ≡ some a
    → get_elem? (clear_pid pid xs) j ≡ some (if a == pid then 0 else a)
unfolding clear_pid
clear_pid-get pid [] j a e = cc
clear_pid-get pid (x ∷ xs) zero a e = ground (arith, e)
clear_pid-get pid (x ∷ xs) (suc j) a e = clear_pid-get pid xs j a e

pub length-clear_pid : (pid : ℕ) (xs : List ℕ) → length (clear_pid pid xs) ≡ length xs
unfolding clear_pid
length-clear_pid pid [] = refl
length-clear_pid pid (x ∷ xs) = ap suc (length-clear_pid pid xs)

-- The index found is the last that holds a zero.
pub record LastZero (xs : List ℕ) (k : ℕ) : Type 0 where
  pub here : get_elem? xs k ≡ some 0
  pub none_after : (j : ℕ) → k < j → get_elem? xs j ≢ some 0

pub data ZeroIndex (xs : List ℕ) (i : ℕ) (index r : Option ℕ) : Type 0 where
  found : (k : ℕ) → LastZero xs k → r ≡ some (i + k) → ZeroIndex xs i index r
  kept : ((j : ℕ) → get_elem? xs j ≢ some 0) → r ≡ index → ZeroIndex xs i index r

not_later :
    (x : ℕ) (xs : List ℕ) (k : ℕ)
    → ((j : ℕ) → k ≤ j → get_elem? xs j ≢ some 0)
    → (j : ℕ) → k < j
    → get_elem? (x ∷ xs) j ≢ some 0
not_later x xs k h zero l = absurd (omega arith)
not_later x xs k h (suc j) l = h j (omega arith)

not_anywhere :
    (x : ℕ) (xs : List ℕ)
    → x ≢ 0
    → ((j : ℕ) → get_elem? xs j ≢ some 0)
    → (j : ℕ) → get_elem? (x ∷ xs) j ≢ some 0
not_anywhere x xs ne h zero e = ground (arith, e)
not_anywhere x xs ne h (suc j) e = h j e

pub zero_index-ZeroIndex :
    (xs : List ℕ) (i : ℕ) (index : Option ℕ) → ZeroIndex xs i index (zero_index xs i index)
unfolding zero_index
zero_index-ZeroIndex [] i index = kept (λ j e. cc) refl
zero_index-ZeroIndex (x ∷ xs) i index =
    elim (zero_index-ZeroIndex xs (i + 1) (if x == 0 then some i else index)) [
      | found k last r ↦
          found (suc k)
            (record { here = last.here; none_after = not_later x xs (suc k) last.none_after })
            (r ∙ ap some (omega arith))
      | kept absent r ↦ elim (ℕ_discrete x 0) [
        | yes e ↦
            found 0 (record { here = ap some e; none_after = not_later x xs 0 (λ j l. absent j) })
              (r ∙ ground arith)
        | no ne ↦ kept (not_anywhere x xs ne absent) (r ∙ ground arith)
      ]
    ]

-- The result of `removebackground` where entry `k` is the last that holds a zero after the pid is
-- cleared: the entries behind it move down by one, and the last entry is there twice.
pub record Removed (pid : ℕ) (running r : List ℕ) (k : ℕ) : Type 0 where
  pub size : length r ≡ max_back
  pub before : (j : ℕ) → j < k → get_elem? r j ≡ get_elem? (clear_pid pid running) j
  pub moved :
      (j : ℕ) → k ≤ j → j + 1 < max_back → get_elem? r j ≡ get_elem? (clear_pid pid running) (j + 1)
  pub end : get_elem? r (max_back - 1) ≡ get_elem? (clear_pid pid running) (max_back - 1)

unfoldable pub shift_start : List ℕ → ℕ → List ℕ
shift_start cleared index = if index == 0 then set cleared 0 (get_or cleared 1 0) else cleared

shift_start-get :
    (cleared : List ℕ) (k j : ℕ)
    → (k ≡ 0 → 0 < j)
    → get_elem? (shift_start cleared k) j ≡ get_elem? cleared j
unfolding shift_start
shift_start-get cleared zero j h =
    get_elem?-set_ne cleared {i = 0} {j = j} _ (λ e. omega (arith, e, h refl))
shift_start-get cleared (suc k) j h = let z : (suc k == 0) ≡ false = ground arith in rw z

pub length-shift_start :
    (cleared : List ℕ) (k : ℕ) → length (shift_start cleared k) ≡ length cleared
unfolding shift_start
length-shift_start cleared zero = length-set cleared 0 _
length-shift_start cleared (suc k) = let z : (suc k == 0) ≡ false = ground arith in rw z

zero_index-last : (xs : List ℕ) (k : ℕ) → LastZero xs k → zero_index xs 0 none ≡ some k
zero_index-last xs k last = elim (zero_index-ZeroIndex xs 0 none) [
  | found k' last' r ↦
      (let not_below : ¬ (k < k') = λ (h : k < k'). last.none_after k' h last'.here in
        let not_above : ¬ (k' < k) = λ (h : k' < k). last'.none_after k h last.here in
        r ∙ ap some (omega arith))
  | kept absent r ↦ absurd (absent k last.here)
]

-- `removebackground` returns where a zero is found, with the list that it leaves.
pub remove_background-Removed :
    (pid : ℕ) (running : List ℕ) (k : ℕ)
    → length running ≡ max_back
    → LastZero (clear_pid pid running) k
    → (r : List ℕ) × (remove_background pid running ≡ some r) × Removed pid running r k
unfolding remove_background shift_start
remove_background-Removed pid running k l last = (
  shift_loop (max_back - 1 - k) k start,
  rw (zero_index-last cleared k last, remove_background),
  record {
    size = length-shift_loop (max_back - 1 - k) k start ∙ size;
    before = λ j h.
        shift_loop_before (max_back - 1 - k) k j start h
        ∙ shift_start-get cleared k j (λ e. omega (arith, e));
    moved = λ j low high.
        shift_loop_moved (max_back - 1 - k) k j start low (omega (arith, inside))
          (omega (arith, size, inside))
        ∙ shift_start-get cleared k (j + 1) (λ e. omega arith);
    end =
        shift_loop_after (max_back - 1 - k) k (max_back - 1) start (omega (arith, inside))
        ∙ shift_start-get cleared k (max_back - 1) (λ e. omega arith);
  },
)
  where
    cleared : List ℕ
    cleared = clear_pid pid running

    start : List ℕ
    start = shift_start cleared k

    size : length start ≡ max_back
    size = length-shift_start cleared k ∙ length-clear_pid pid running ∙ l

    inside : k < max_back
    inside =
        omega (arith, lt-length_of_get_elem? cleared k 0 last.here, length-clear_pid pid running)
