-- ===== src/Memory/State.antt =====
-- The globals of project4/memory.c as one record, and commands that read and write it.
use cs3013_operating_systems.Prelude.{
  ℕ, Option, none, some, List, [], ◌∷◌, ◌++◌, if◌then◌else◌, ltb, length, get_elem?, set, replicate,
  ℤ, pos, negsuc, minus_one,
}

abbrev pub max_mem : ℕ
max_mem = 64

abbrev pub page_mem : ℕ
page_mem = 16

-- `PTE`, the bytes of a page table entry
abbrev pub pte_size : ℕ
pte_size = 4

abbrev pub num_pages : ℕ
num_pages = 4

abbrev pub writeable : ℕ
writeable = 1

-- the offsets `PFN`, `PROTECTION` and `VALPRES` in an entry
abbrev pub pfn_offset : ℕ
pfn_offset = 1

abbrev pub protection_offset : ℕ
protection_offset = 2

abbrev pub valpres_offset : ℕ
valpres_offset = 3

-- `hp.inmem`, which is only ever -1, 0 or 1
pub data Place : Type 0 where
  unset on_disk in_memory : Place

-- `struct hp`: the address of a page table, or its line in the swap file
pub record Hp : Type 0 where
  pub address : ℤ
  pub inmem : Place

-- What the program prints, an event for each message. A segfault has the virtual address.
pub data Event : Type 0 where
  stored : (val : ℕ) (paddr : ℤ) → Event
  value_at : (vaddr val : ℕ) → Event
  unallocated_value : (vaddr val : ℕ) → Event
  segfault : (vaddr : ℕ) → Event
  not_writeable : (vaddr : ℕ) → Event
  table_created : (pid : ℕ) (address : ℤ) → Event
  table_loaded : (pid : ℕ) (address : ℤ) → Event
  table_at : (pid : ℕ) (address : ℤ) → Event
  table_swapped : (pid : ℤ) → Event
  page_loaded : (page pid : ℕ) (address : ℤ) → Event
  frame_swapped : (frame line : ℕ) → Event
  already_has : (val : ℕ) → Event
  altered : Event
  page_allocated : (vpn : ℕ) (address : ℤ) → Event
  line_not_found : (line : ℤ) → Event
  bad_pid bad_vaddr bad_input : Event

-- The globals. The contents of swapspace.txt are its bytes. `pages` holds a pid, or -1. `overruns` counts
-- the writes of `pageFromFile` behind the end of the buffer that its caller gave it, which is on the stack.
pub record Machine : Type 0 where
  pub mem : List ℕ
  pub freelist : List ℕ
  pub pages : List ℤ
  pub ispagetable : List ℕ
  pub hardware : List Hp
  pub linecount : ℕ
  pub roundrobin : ℕ
  pub swapspace : List ℕ
  pub overruns : ℕ
  pub out : List Event

-- The globals as `main` leaves them before its loop.
abbrev pub init : Machine
init = record {
  mem = replicate max_mem 0;
  freelist = replicate num_pages 1;
  pages = replicate num_pages minus_one;
  ispagetable = replicate num_pages 0;
  hardware = replicate num_pages (record { address = pos 0; inmem = Place.unset });
  linecount = 0;
  roundrobin = 0;
  swapspace = [];
  overruns = 0;
  out = [];
}

-- `fault`: an access out of the bounds of an array, or a null token handed to `atoi`.
-- `hang`: a loop that never ends. `out_of_fuel`: the rounds given to a loop are used up.
pub data Run (A : Type 0) : Type 0 where
  ok : A → Machine → Run A
  fault hang out_of_fuel : Run A

abbrev pub Cmd : Type 0 → Type 0
Cmd A = Machine → Run A

abbrev pub pure : {A : Type 0} → A → Cmd A
pure = ok

module _ {A B : Type 0} where
  abbrev pub and_then : Run A → (A → Cmd B) → Run B
  and_then (ok a m) k = k a m
  and_then fault k = fault
  and_then hang k = hang
  and_then out_of_fuel k = out_of_fuel

  infixl 5 ◌>>=◌
  abbrev pub ◌>>=◌ : Cmd A → (A → Cmd B) → Cmd B
  c >>= k = λ m. and_then (c m) k

infixl 5 ◌>>◌
abbrev pub ◌>>◌ : {B : Type 0} → Cmd (Unit {0}) → Cmd B → Cmd B
c >> d = c >>= λ _. d

-- `a[i]` for an array of the machine: out of range it faults.
abbrev pub index {ℓ} : {A : Type ℓ} → List A → ℤ → Option A
index xs (pos i) = get_elem? xs i
index xs (negsuc _) = none

abbrev pub or_fault : {A : Type 0} → Option A → Cmd A
or_fault (some a) = ok a
or_fault none = λ _. fault

abbrev pub fetch : {A : Type 0} → (Machine → List A) → ℤ → Cmd A
fetch array i m = or_fault (index (array m) i) m

abbrev pub read_mem : ℤ → Cmd ℕ
read_mem = fetch (λ m. m.mem)

-- `a[i] = v`, given how the array is put back
abbrev pub put : {A : Type 0} → List A → ℤ → A → (List A → Machine) → Run (Unit {0})
put xs (pos i) v back = if ltb i (length xs) then ok tt (back (set xs i v)) else fault
put xs (negsuc _) v back = fault

abbrev pub write_mem : ℤ → ℕ → Cmd (Unit {0})
write_mem i v m = put m.mem i v (λ xs. record m { mem = xs })

abbrev pub write_freelist : ℤ → ℕ → Cmd (Unit {0})
write_freelist i v m = put m.freelist i v (λ xs. record m { freelist = xs })

abbrev pub write_pages : ℤ → ℤ → Cmd (Unit {0})
write_pages i v m = put m.pages i v (λ xs. record m { pages = xs })

abbrev pub write_ispagetable : ℤ → ℕ → Cmd (Unit {0})
write_ispagetable i v m = put m.ispagetable i v (λ xs. record m { ispagetable = xs })

abbrev pub write_hardware : ℤ → Hp → Cmd (Unit {0})
write_hardware i v m = put m.hardware i v (λ xs. record m { hardware = xs })

abbrev pub print : Event → Cmd (Unit {0})
print e m = ok tt (record m { out = m.out ++ (e ∷ []) })
