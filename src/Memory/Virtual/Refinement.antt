-- ===== src/Memory/Virtual/Refinement.antt =====
-- The calls of project4/memory.c on resident pages, against the abstract memory.
use mathlib.Core.List.{append_assoc, append-nil}
use cs3013_operating_systems.Prelude.{
  subst, ℤ, ℕ, ◌+◌, ◌*◌, ◌/◌, ◌%◌, ◌<◌, ◌≡◌, ◌≢◌, refl, sym, ap, ◌∙◌, List, [], ◌∷◌, ◌++◌, arith,
  some, get_elem?, set, get_elem?-set_self, get_elem?-set_ne, lt-length_of_get_elem?, ℕ_discrete,
}
use cs3013_operating_systems.Memory.State.{Machine, Event, stored, value_at, page_mem}
use cs3013_operating_systems.Memory.Commands.Resident.{
  say, after_store, load_present, store_present, stored-EntryAt, say-EntryAt,
}
use cs3013_operating_systems.Memory.Virtual.{
  View, update, Access, put, get, specified, perform, shown, Layout, IsWithin, IsApart, Holds,
  Shows,
}

say-Holds : {l : Layout} {v : View} {m : Machine} (e : Event) → Holds l v m → Holds l v (say e m)
say-Holds e h = record {
  entry = λ pid vaddr f low at. say-EntryAt e (h.entry pid vaddr f low at);
  byte = h.byte;
}

module _ (pid vaddr val : ℕ) (v : View) where
  update_same : update pid vaddr val v pid vaddr ≡ val
  update_same = ground arith

  update_other :
      (pid' vaddr' : ℕ)
      → (pid ≡ pid' → vaddr ≢ vaddr')
      → update pid vaddr val v pid' vaddr' ≡ v pid' vaddr'
  update_other pid' vaddr' other = elim (ℕ_discrete pid pid') [
    | yes same ↦ (let ne : vaddr ≢ vaddr' = other same in ground arith)
    | no ne ↦ ground arith
  ]

-- A store to a page of the layout is an update of the view.
module _ {l : Layout} {v : View} {m : Machine} (pid vaddr val : ℕ) (f : ℕ × ℕ) (apart : IsApart l)
    (low : vaddr < 64) (at : l pid (vaddr / page_mem) ≡ some f) (h : Holds l v m) where
  abbrev place : ℕ
  place = f.1 * page_mem + vaddr % page_mem

  same_place :
      (pid' vaddr' : ℕ) (f' : ℕ × ℕ)
      → l pid' (vaddr' / page_mem) ≡ some f'
      → pid ≡ pid'
      → vaddr ≡ vaddr'
      → place ≡ f'.1 * page_mem + vaddr' % page_mem
  same_place pid' vaddr' f' at' e e' =
      let frames : f ≡ f' = cc in omega (arith, ap (λ g. g.1) frames, e')

  byte-Holds :
      (pid' vaddr' : ℕ) (f' : ℕ × ℕ)
      → vaddr' < 64
      → l pid' (vaddr' / page_mem) ≡ some f'
      → get_elem? (set m.mem place val) (f'.1 * page_mem + vaddr' % page_mem)
        ≡ some (update pid vaddr val v pid' vaddr')
  byte-Holds pid' vaddr' f' low' at' =
      elim (ℕ_discrete place (f'.1 * page_mem + vaddr' % page_mem)) [
        | yes same ↦
            (let (one, page) =
                apart.pages pid (vaddr / page_mem) pid' (vaddr' / page_mem) f f' at at'
                  (omega (arith, same)) in
              let address : vaddr ≡ vaddr' = omega (arith, same, page) in
              let updated : update pid vaddr val v pid' vaddr' ≡ val =
                rw (← one) (rw (← address) (update_same pid vaddr val v)) in
              let written : get_elem? (set m.mem place val) place ≡ some val =
                get_elem?-set_self m.mem place val
                  (lt-length_of_get_elem? m.mem place (v pid vaddr) (h.byte pid vaddr f low at)) in
              subst (λ k. get_elem? (set m.mem place val) k ≡ some val) same written
              ∙ ap some (sym updated))
        | no other ↦
            get_elem?-set_ne m.mem val other
            ∙ h.byte pid' vaddr' f' low' at'
            ∙ ap some (
                sym (
                  update_other pid vaddr val v pid' vaddr'
                    (λ e e'. other (same_place pid' vaddr' f' at' e e'))))
      ]

  after_store-Holds : Holds l (update pid vaddr val v) (after_store f.1 vaddr val m)
  after_store-Holds = record {
    entry = λ pid' vaddr' f' low' at'.
        stored-EntryAt f'.0 f.1 vaddr val
          (apart.tables pid' (vaddr' / page_mem) pid (vaddr / page_mem) f' f at' at) low'
          (h.entry pid' vaddr' f' low' at');
    byte = byte-Holds;
  }

shown-append : (es es' : List Event) → shown (es ++ es') ≡ shown es ++ shown es'
unfolding shown
shown-append [] es' = refl
shown-append (value_at vaddr val ∷ es) es' = ap (λ k. (vaddr, val) ∷ k) (shown-append es es')
shown-append (e ∷ es) es' = shown-append es es'

shown-stored :
    (val : ℕ) (paddr : ℤ) (es : List Event) → shown (es ++ stored val paddr ∷ []) ≡ shown es
unfolding shown
shown-stored val paddr es = shown-append es _ ∙ append-nil (shown es)

shown-value_at :
    (vaddr val : ℕ) (es : List Event)
    → shown (es ++ value_at vaddr val ∷ []) ≡ shown es ++ (vaddr, val) ∷ []
unfolding shown
shown-value_at vaddr val es = shown-append es _

-- From a machine that holds a view in the frames of a layout in which no page shares its frame with a
-- page table or with another page, every sequence of stores and loads on the layout's pages succeeds,
-- and the values that it shows are those of the abstract memory that starts with the view.
pub perform-specified :
    {l : Layout} {v : View} {m : Machine} (accesses : List Access)
    → IsApart l
    → IsWithin l accesses
    → Holds l v m
    → Shows accesses v m
unfolding perform specified IsWithin
perform-specified {m} [] apart within h = (m, refl, sym (append-nil (shown m.out)))
perform-specified {l} {v} {m} (put pid vaddr val ∷ rest) apart ((f, low, at), within) h =
    let bound = lt-length_of_get_elem? m.mem _ _ (h.byte pid vaddr f low at) in
    let run =
      store_present f.0 f.1 (h.entry pid vaddr f low at)
        (apart.tables pid (vaddr / page_mem) pid (vaddr / page_mem) f f at at) low bound val in
    let (m', ran, seen) =
      perform-specified {l = l} {v = update pid vaddr val v} rest apart within
        (after_store-Holds pid vaddr val f apart low at h) in
    (
      m',
      rw run ran,
      seen ∙ ap (λ k. k ++ specified rest (update pid vaddr val v)) (shown-stored val _ m.out),
    )
perform-specified {l} {v} {m} (get pid vaddr ∷ rest) apart ((f, low, at), within) h =
    let run =
      load_present 0 (v pid vaddr) (h.entry pid vaddr f low at) (h.byte pid vaddr f low at) in
    let (m', ran, seen) =
      perform-specified {l = l} {v = v} rest apart within
        (say-Holds (value_at vaddr (v pid vaddr)) h) in
    (
      m',
      rw run ran,
      seen
          ∙ ap (λ k. k ++ specified rest v) (shown-value_at vaddr _ m.out)
          ∙ append_assoc (shown m.out) _ _,
    )
