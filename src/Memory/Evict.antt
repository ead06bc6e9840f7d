-- ===== src/Memory/Evict.antt =====
-- `freespace` of project4/memory.c: round robin eviction until `n` frames are free.
pub mod Enough
pub mod PageRounds
pub mod Sound
use cs3013_operating_systems.Prelude.{
  ℕ, zero, suc, ◌+◌, ◌-◌, ◌*◌, Bool, true, false, ◌&&◌, List, [], ◌∷◌, if◌then◌else◌, ltb, ◌==◌,
  length, get_elem?, set, replicate, ℤ, pos, eq_ℤ, some, none,
}
use cs3013_operating_systems.Memory.State.{
  Machine, Hp, Place, unset, on_disk, in_memory, ok, fault, out_of_fuel, Cmd, pure, ◌>>=◌, ◌>>◌,
  or_fault, fetch, print, frame_swapped, page_mem,
}
use cs3013_operating_systems.Memory.Frames.{robin, count_free}
use cs3013_operating_systems.Memory.Paging.{hardware_of, remove_page, remove_page_table}

-- `roundrobin * PAGEMEM == hardware[pid].address && hardware[pid].inmem == 1`
abbrev pub is_table_of : ℕ → Hp → Bool
is_table_of frame h = elim h.inmem [
  | in_memory ↦ eq_ℤ (pos (frame * page_mem)) h.address
  | _ ↦ false
]

abbrev pub round_robin : Cmd ℕ
round_robin m = ok m.roundrobin m

-- `if (… the frame is the page table of pid …) { robin(); j++; }`, with `j` after it
pub skip_own : ℤ → Cmd ℕ
skip_own pid m =
    (do h ← hardware_of pid; if is_table_of m.roundrobin h then (do robin; pure 1) else pure 0) m

-- `while (ispagetable[roundrobin] == 1) { robin(); j++; if (j == 4) break; }`
pub skip_tables : ℕ → ℕ → Cmd ℕ
skip_tables zero j m = out_of_fuel
skip_tables (suc k) j m =
    (do
      table ← fetch (λ m. m.ispagetable) (pos m.roundrobin)
      if table == 1
          then (do robin; if j + 1 == 4 then pure 4 else skip_tables k (j + 1))
          else pure j)
      m

-- The locals of `freespace` that its loops change.
pub record Scan : Type 0 where
  pub f : ℕ
  pub removed : List ℕ

-- `removePage(pages[roundrobin], roundrobin * PAGEMEM)`
pub evict_page : Cmd (Unit {0})
evict_page m =
    (do
      owner ← fetch (λ m. m.pages) (pos m.roundrobin)
      remove_page owner (m.roundrobin * page_mem))
      m

pub evict_table : Cmd (Unit {0})
evict_table m = (do owner ← fetch (λ m. m.pages) (pos m.roundrobin); remove_page_table owner) m

-- The rest of a round of the first loop, after the tables are skipped: evict the page in the frame,
-- unless this call has evicted it before.
pub page_round : Scan → Cmd Scan
unfolding evict_page
page_round s m =
    (do
      gone ← or_fault (get_elem? s.removed m.roundrobin)
      if gone == 0
          then (do
            evict_page
            λ m'. print (frame_swapped m'.roundrobin m'.linecount) m'
            robin
            pure (record { f = s.f + 1; removed = set s.removed m.roundrobin 1 }))
          else (do robin; pure s))
      m

-- The loop that removes pages. `j` counts the steps of a round, and at 4 the loop breaks.
pub page_rounds : ℕ → ℕ → ℤ → Scan → Cmd Scan
unfolding skip_own skip_tables page_round
page_rounds zero n pid s = if ltb s.f n then (λ _. out_of_fuel) else pure s
page_rounds (suc k) n pid s =
    let round : Cmd Scan = (do
      own ← skip_own pid
      j ← skip_tables 4 own
      s' ← page_round s
      if j + 1 == 4 then pure s' else page_rounds k n pid s') in
    if ltb s.f n then round else pure s

-- The loop that removes page tables as well.
pub table_round : ℤ → Scan → Cmd Scan
unfolding skip_own evict_table evict_page
table_round pid s = do
  own ← skip_own pid
  λ m.
      (do
        gone ← or_fault (get_elem? s.removed m.roundrobin)
        if gone == 0
            then (do
              table ← fetch (λ m. m.ispagetable) (pos m.roundrobin)
              if table == 1 then (do evict_table; robin; pure (record s { f = s.f + 1 })) else (do
                evict_page
                λ m'. print (frame_swapped m'.roundrobin (m'.linecount - 1)) m'
                pure (record s { f = s.f + 1 })))
            else (do robin; pure s))
        m

pub table_rounds : ℕ → ℕ → ℤ → Scan → Cmd (Unit {0})
unfolding table_round
table_rounds zero n pid s = if ltb s.f n then (λ _. out_of_fuel) else pure tt
table_rounds (suc k) n pid s =
    let round : Cmd (Unit {0}) = (do s' ← table_round pid s; table_rounds k n pid s') in
    if ltb s.f n then round else pure tt

abbrev pub eviction_fuel : ℕ
eviction_fuel = 16

unfoldable pub free_space : ℕ → ℤ → Cmd (Unit {0})
unfolding page_rounds table_rounds
free_space n pid = do
  robin
  f ← count_free
  s ← page_rounds eviction_fuel n pid (record { f = f; removed = replicate 4 0 })
  table_rounds eviction_fuel n pid s
