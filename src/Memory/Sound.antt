-- ===== src/Memory/Sound.antt =====
-- What it is for a machine of project4/memory.c to be sound: the arrays have the sizes of their
-- declarations, and their entries are in range.
use cs3013_operating_systems.Prelude.{
  ℕ, ◌≡◌, ◌<◌, ◌≤◌, refl, ◌∙◌, List, [], ◌∷◌, ◌++◌, ℤ, pos, negsuc, length, length-set, All,
  All-set, All-get_elem?, get_elem?, Option-cases, inl, inr, ltb, Bool, true, false, if◌then◌else◌,
}
use cs3013_operating_systems.Memory.State.{
  Machine, Hp, Event, Run, ok, fault, hang, Cmd, and_then, fetch, read_mem, write_mem,
  write_freelist, write_pages, write_ispagetable, write_hardware, max_mem, num_pages,
}
use cs3013_operating_systems.Memory.Swap.Lines.{IsByte}

abbrev pub IsFlag : ℕ → Type 0
IsFlag f = f ≤ 1

-- A machine whose round robin counter is `r`.
pub record At (r : ℕ) (m : Machine) : Type 0 where
  pub counter : m.roundrobin ≡ r
  pub low : r < num_pages
  pub mem : length m.mem ≡ max_mem
  pub bytes : All IsByte m.mem
  pub freelist : length m.freelist ≡ num_pages
  pub free_flags : All IsFlag m.freelist
  pub pages : length m.pages ≡ num_pages
  pub ispagetable : length m.ispagetable ≡ num_pages
  pub table_flags : All IsFlag m.ispagetable
  pub hardware : length m.hardware ≡ num_pages

abbrev pub IsSound : Machine → Type 0
IsSound m = (r : ℕ) × At r m

-- A run that ends with `P` of the machine and `Q` of the result, unless it faults or hangs. It is not
-- out of fuel.
pub data Ends {A : Type 0} (P : Machine → Type 0) (Q : A → Type 0) : Run A → Type 0 where
  returns : {a : A} {m : Machine} → P m → Q a → Ends P Q (ok a m)
  faults : Ends P Q fault
  hangs : Ends P Q hang

abbrev pub Any : {A : Type 0} → A → Type 0
Any a = Unit {0}

module _ {A : Type 0} {P : Machine → Type 0} {Q : A → Type 0} where
  pub bind :
      {B : Type 0} {P' : Machine → Type 0} {R : B → Type 0} {run : Run A} {k : A → Cmd B}
      → Ends P Q run
      → ((a : A) (m : Machine) → P m → Q a → Ends P' R (k a m))
      → Ends P' R (and_then run k)
  bind (returns p q) next = next _ _ p q
  bind faults next = faults
  bind hangs next = hangs

  -- What is known of the result may be forgotten.
  pub weaken : {run : Run A} → Ends P Q run → Ends P Any run
  weaken (returns p q) = returns p tt
  weaken faults = faults
  weaken hangs = hangs

  pub Ends-if :
      (b : Bool) (run run' : Run A)
      → Ends P Q run
      → Ends P Q run'
      → Ends P Q (if b then run else run')
  Ends-if true run run' h h' = h
  Ends-if false run run' h h' = h'

  -- The same for a choice of commands.
  pub branch :
      (b : Bool) (c c' : Cmd A) {m : Machine}
      → Ends P Q (c m)
      → Ends P Q (c' m)
      → Ends P Q ((if b then c else c') m)
  branch true c c' h h' = h
  branch false c c' h h' = h'

-- A run that keeps the counter leaves a sound machine.
pub sound :
    {A : Type 0} {Q : A → Type 0} {r : ℕ} {run : Run A} → Ends (At r) Q run → Ends IsSound Q run
sound (returns h q) = returns (_, h) q
sound faults = faults
sound hangs = hangs

-- The same, with a relation between the result and the machine.
pub data Yields {A : Type 0} (R : A → Machine → Type 0) : Run A → Type 0 where
  yields : {a : A} {m : Machine} → R a m → Yields R (ok a m)
  yields_fault : Yields R fault
  yields_hang : Yields R hang

module _ {A B : Type 0} where
  pub after :
      {P : Machine → Type 0} {Q : A → Type 0} {R : B → Machine → Type 0} {run : Run A}
      {k : A → Cmd B}
      → Ends P Q run
      → ((a : A) (m : Machine) → P m → Q a → Yields R (k a m))
      → Yields R (and_then run k)
  after (returns p q) next = next _ _ p q
  after faults next = yields_fault
  after hangs next = yields_hang

  pub chain :
      {R : A → Machine → Type 0} {R' : B → Machine → Type 0} {run : Run A} {k : A → Cmd B}
      → Yields R run
      → ((a : A) (m : Machine) → R a m → Yields R' (k a m))
      → Yields R' (and_then run k)
  chain (yields r) next = next _ _ r
  chain yields_fault next = yields_fault
  chain yields_hang next = yields_hang

  pub finish :
      {R : A → Machine → Type 0} {P : Machine → Type 0} {Q : B → Type 0} {run : Run A}
      {k : A → Cmd B}
      → Yields R run
      → ((a : A) (m : Machine) → R a m → Ends P Q (k a m))
      → Ends P Q (and_then run k)
  finish (yields r) next = next _ _ r
  finish yields_fault next = faults
  finish yields_hang next = hangs

pub Yields-if :
    {A : Type 0} {R : A → Machine → Type 0} (b : Bool) (c c' : Cmd A) {m : Machine}
    → (b ≡ true → Yields R (c m))
    → (b ≡ false → Yields R (c' m))
    → Yields R ((if b then c else c') m)
Yields-if true c c' h h' = h refl
Yields-if false c c' h h' = h' refl

module _ {r : ℕ} {m : Machine} (h : At r m) where
  pub read_mem-At : (i : ℤ) → Ends (At r) IsByte (read_mem i m)
  read_mem-At (pos i) = elim (Option-cases (get_elem? m.mem i)) [
    | inl e ↦ rw e faults
    | inr (b, e) ↦ rw e (returns h (All-get_elem? IsByte m.mem i b h.bytes e))
  ]
  read_mem-At (negsuc i) = faults

  pub fetch-At : {A : Type 0} (array : Machine → List A) (i : ℤ) → Ends (At r) Any (fetch array i m)
  fetch-At array (pos i) = elim (Option-cases (get_elem? (array m) i)) [
    | inl e ↦ rw e faults
    | inr (b, e) ↦ rw e (returns h tt)
  ]
  fetch-At array (negsuc i) = faults

  pub write_mem-At : (i : ℤ) (v : ℕ) → IsByte v → Ends (At r) Any (write_mem i v m)
  write_mem-At (pos i) v byte =
      Ends-if (ltb i (length m.mem)) _ _
        (returns (search (h, length-set m.mem i v ∙ h.mem, All-set IsByte m.mem i v h.bytes byte))
          tt)
        faults
  write_mem-At (negsuc i) v byte = faults

  pub printed-At : (e : Event) → At r (record m { out = m.out ++ e ∷ [] })
  printed-At e = search h

  pub write_freelist-At : (i : ℤ) (v : ℕ) → IsFlag v → Ends (At r) Any (write_freelist i v m)
  write_freelist-At (pos i) v flag =
      Ends-if (ltb i (length m.freelist)) _ _
        (returns
          (search (
            h,
            length-set m.freelist i v ∙ h.freelist,
            All-set IsFlag m.freelist i v h.free_flags flag,
          ))
          tt)
        faults
  write_freelist-At (negsuc i) v flag = faults

  pub write_ispagetable-At : (i : ℤ) (v : ℕ) → IsFlag v → Ends (At r) Any (write_ispagetable i v m)
  write_ispagetable-At (pos i) v flag =
      Ends-if (ltb i (length m.ispagetable)) _ _
        (returns
          (search (
            h,
            length-set m.ispagetable i v ∙ h.ispagetable,
            All-set IsFlag m.ispagetable i v h.table_flags flag,
          ))
          tt)
        faults
  write_ispagetable-At (negsuc i) v flag = faults

  pub write_pages-At : (i v : ℤ) → Ends (At r) Any (write_pages i v m)
  write_pages-At (pos i) v =
      Ends-if (ltb i (length m.pages)) _ _
        (returns (search (h, length-set m.pages i v ∙ h.pages)) tt) faults
  write_pages-At (negsuc i) v = faults

  pub write_hardware-At : (i : ℤ) (v : Hp) → Ends (At r) Any (write_hardware i v m)
  write_hardware-At (pos i) v =
      Ends-if (ltb i (length m.hardware)) _ _
        (returns (search (h, length-set m.hardware i v ∙ h.hardware)) tt) faults
  write_hardware-At (negsuc i) v = faults
