-- ===== src/Kernel/Calls.antt =====
-- The handlers of project2/part1/part1.c: `new_sys_open`, `new_sys_close`, `new_sys_read`.
use cs3013_operating_systems.Prelude.{
  ℕ, ◌+◌, ◌^◌, Option, none, some, not, ◌≡◌, ◌⊎◌, true, false, Bool, ◌&&◌, ◌||◌, List, [], ◌∷◌,
  ◌++◌, if◌then◌else◌, ◌==◌, ltb, leb, length,
}
use cs3013_operating_systems.Memory.Text.{c_string}

-- The messages in the kernel's log.
pub data Message : Type 0 where
  opening : (user : ℕ) (file : List ℕ) → Message
  closing : (user fd : ℕ) → Message
  malicious : (user fd : ℕ) → Message

-- `int user = current_uid().val; user >= 1000`: a user id from 2 ^ 31 on is negative as an `int`.
abbrev pub is_logged : ℕ → Bool
is_logged uid = leb 1000 uid && ltb uid (2 ^ 31)

-- What a handler does: the messages, the result of the original call, and whether it wrote outside
-- the block that `kmalloc` returned.
pub record Reply (R : Type 0) : Type 0 where
  pub log : List Message
  pub result : R
  pub overrun : Bool

-- The original calls are the kernel's.
module _ {R : Type 0} where
  unfoldable pub new_sys_open : (ref : List ℕ → ℕ → ℕ → R) → (uid : ℕ) → List ℕ → ℕ → ℕ → Reply R
  new_sys_open ref uid file flags mode = record {
    log = if is_logged uid then opening uid file ∷ [] else [];
    result = ref file flags mode;
    overrun = false;
  }

  unfoldable pub new_sys_close : (ref : ℕ → R) → (uid fd : ℕ) → Reply R
  new_sys_close ref uid fd = record {
    log = if is_logged uid then closing uid fd ∷ [] else [];
    result = ref fd;
    overrun = false;
  }

-- `strstr(data, pattern) != NULL`
unfoldable pub has_prefix : List ℕ → List ℕ → Bool
has_prefix [] cs = true
has_prefix (p ∷ ps) [] = false
has_prefix (p ∷ ps) (c ∷ cs) = (p == c) && has_prefix ps cs

unfoldable pub contains : List ℕ → List ℕ → Bool
unfolding has_prefix
contains pattern [] = has_prefix pattern []
contains pattern (c ∷ cs) = has_prefix pattern (c ∷ cs) || contains pattern cs

abbrev pub virus : List ℕ
virus = b'V' ∷ b'I' ∷ b'R' ∷ b'U' ∷ b'S' ∷ []

-- A read that gets its block. `buf` is the memory from the buffer's address on, as it is before the
-- call. The original `read` gives its result, and the memory as it is afterwards.
unfoldable pub scan_and_read :
    {R : Type 0} (ref : ℕ → List ℕ → ℕ → R) → (uid fd : ℕ) → List ℕ → ℕ → Reply R
unfolding contains
scan_and_read ref uid fd buf count = record {
  log =
      if is_logged uid
      then if contains virus (c_string buf) then malicious uid fd ∷ [] else []
      else [];
  result = ref fd buf count;
  overrun = is_logged uid && ltb count (length (c_string buf));
}

-- `kmalloc` says whether there is a block of a size. `none`: it returned a null pointer, and the handler
-- writes through it.
unfoldable pub new_sys_read :
    {R : Type 0} (kmalloc : ℕ → Bool) (ref : ℕ → List ℕ → ℕ → R)
    → (uid fd : ℕ) → List ℕ
    → ℕ
    → Option (Reply R)
unfolding scan_and_read
new_sys_read kmalloc ref uid fd buf count =
    if is_logged uid && not (kmalloc (count + 1))
    then none
    else some (scan_and_read ref uid fd buf count)

-- The pattern stands somewhere in the text.
pub Infix : List ℕ → List ℕ → Type 0
Infix pattern text = (before : List ℕ) × (after : List ℕ) × (text ≡ before ++ (pattern ++ after))

-- What a read of a user leaves, with the C string at the buffer's address.
abbrev pub Warns : {R : Type 0} → (uid fd : ℕ) → List ℕ → Reply R → Type 0
Warns uid fd text r =
    ((is_logged uid ≡ true) × Infix virus text × (r.log ≡ malicious uid fd ∷ []))
    ⊎ ((¬ ((is_logged uid ≡ true) × Infix virus text)) × (r.log ≡ []))
