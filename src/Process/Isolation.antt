-- ===== src/Process/Isolation.antt =====
-- Which page directories the processes of src/process.c have: that each live one has its own, kept
-- by creation, destruction and the saving of a context (src/scheduler.c).
use os_2024_ususbuntu_with_s.Prelude.{
  ℕ, ◌<◌, ◌≡◌, ◌≢◌, sym, ap, ◌∙◌, true, Option, some, arith, set, ℕ_discrete, List,
}
use os_2024_ususbuntu_with_s.Paging.{Paging, paging_directory_table_max_count}
use os_2024_ususbuntu_with_s.Paging.Pool.{IsNew, IsFreed, is_used}
use os_2024_ususbuntu_with_s.Process.{Context, ProcessControlBlock, pcb_at, process_count_max}
use os_2024_ususbuntu_with_s.Process.Invariant.{IsProcessList, pcb_at_self, pcb_at-ne}

abbrev pub directory_of : List ProcessControlBlock → ℕ → Option ℕ
directory_of pcbs i = (pcb_at pcbs i).context.page_directory_virtual_addr

abbrev pub IsLive : List ProcessControlBlock → ℕ → Type 0
IsLive pcbs i = (pcb_at pcbs i).pid ≢ 0

-- A live process has a used page directory, and no other live process has the same.
pub record IsIsolated (pcbs : List ProcessControlBlock) (p : Paging) : Type 0 where
  pub owned :
      (i : ℕ)
      → IsLive pcbs i
      → (d : ℕ) × (directory_of pcbs i ≡ some d)
        × (d < paging_directory_table_max_count)
        × (is_used p d ≡ true)
  pub distinct :
      (i j : ℕ) → IsLive pcbs i → IsLive pcbs j → directory_of pcbs i ≡ directory_of pcbs j → i ≡ j

-- Only the identifiers, the directories and the marks of those in use matter.
pub same-IsIsolated :
    (pcbs pcbs' : List ProcessControlBlock) (p p' : Paging)
    → IsIsolated pcbs p
    → ((i : ℕ) → (pcb_at pcbs' i).pid ≡ (pcb_at pcbs i).pid)
    → ((i : ℕ) → directory_of pcbs' i ≡ directory_of pcbs i)
    → ((d : ℕ) → is_used p d ≡ true → is_used p' d ≡ true)
    → IsIsolated pcbs' p'
same-IsIsolated pcbs pcbs' p p' s pids dirs marks = record {
  owned = λ i live.
      let (d, e, lt, u) = s.owned i (λ z. live (pids i ∙ z)) in (d, dirs i ∙ e, lt, marks d u);
  distinct = λ i j a b e.
      s.distinct i j (λ z. a (pids i ∙ z)) (λ z. b (pids j ∙ z)) (sym (dirs i) ∙ e ∙ dirs j);
}

pub some_inj : (a b : ℕ) → some a ≡ some b → a ≡ b
some_inj a b e = ground (arith, e)

module _ (pcbs : List ProcessControlBlock) (n : ℕ) (v : IsProcessList pcbs n) (p : Paging)
    (s : IsIsolated pcbs p) (i : ℕ) (lt : i < process_count_max) (pcb : ProcessControlBlock) where
  after : List ProcessControlBlock
  after = set pcbs i pcb

  other_block : (j : ℕ) → j ≢ i → pcb_at after j ≡ pcb_at pcbs j
  unfolding after
  other_block j ne = pcb_at-ne pcbs n v i lt pcb j ne

  this_block : pcb_at after i ≡ pcb
  unfolding after
  this_block = pcb_at_self pcbs n v i lt pcb

  other-IsLive : (j : ℕ) → j ≢ i → IsLive after j → IsLive pcbs j
  other-IsLive j ne live z = live (ap (λ x. ProcessControlBlock.pid x) (other_block j ne) ∙ z)

  other_directory : (j : ℕ) → j ≢ i → directory_of after j ≡ directory_of pcbs j
  other_directory j ne =
      ap (λ x. Context.page_directory_virtual_addr (ProcessControlBlock.context x))
        (other_block j ne)

  -- A process spawned into the slot, with a page directory that was unused.
  module _ (d : ℕ) (p' : Paging) (nw : IsNew p d p')
      (owns : pcb.context.page_directory_virtual_addr ≡ some d) where
    this_directory : directory_of after i ≡ some d
    this_directory =
        ap (λ x. Context.page_directory_virtual_addr (ProcessControlBlock.context x)) this_block
        ∙ owns

    not_new : (j : ℕ) → IsLive pcbs j → directory_of pcbs j ≢ some d
    not_new j live e =
        let (d', e', lt', u) = s.owned j live in
        let same : d' ≡ d = some_inj d' d (sym e' ∙ e) in cc (nw.was_unused, u, same)

    spawned-owned :
        (j : ℕ)
        → IsLive after j
        → (d' : ℕ) × (directory_of after j ≡ some d')
          × (d' < paging_directory_table_max_count)
          × (is_used p' d' ≡ true)
    spawned-owned j live = elim (ℕ_discrete j i) [
      | yes e ↦ (d, ap (directory_of after) e ∙ this_directory, nw.low, nw.now_used)
      | no ne ↦
          let (d', e', lt', u) = s.owned j (other-IsLive j ne live) in
          (
            d',
            other_directory j ne ∙ e',
            lt',
            (nw.others d' (λ same. not_new j (other-IsLive j ne live) (e' ∙ ap some same))).1 ∙ u,
          )
    ]

    spawned-distinct :
        (j l : ℕ)
        → IsLive after j
        → IsLive after l
        → directory_of after j ≡ directory_of after l
        → j ≡ l
    spawned-distinct j l a b e = elim (ℕ_discrete j i) [
      | yes ej ↦ elim (ℕ_discrete l i) [
        | yes el ↦ ej ∙ sym el
        | no nl ↦ absurd (
            not_new l (other-IsLive l nl b)
              (sym (other_directory l nl) ∙ sym e ∙ ap (directory_of after) ej ∙ this_directory))
      ]
      | no nj ↦ elim (ℕ_discrete l i) [
        | yes el ↦ absurd (
            not_new j (other-IsLive j nj a)
              (sym (other_directory j nj) ∙ e ∙ ap (directory_of after) el ∙ this_directory))
        | no nl ↦
            s.distinct j l (other-IsLive j nj a) (other-IsLive l nl b)
              (sym (other_directory j nj) ∙ e ∙ other_directory l nl)
      ]
    ]

    pub spawned-IsIsolated : IsIsolated (set pcbs i pcb) p'
    unfolding after
    spawned-IsIsolated = record { owned = spawned-owned; distinct = spawned-distinct }

  -- The process of the slot ended, and its page directory freed.
  module _ (d : ℕ) (p' : Paging) (fr : IsFreed p d p') (was : IsLive pcbs i)
      (had : directory_of pcbs i ≡ some d) (dead : pcb.pid ≡ 0) where
    not_this : (j : ℕ) → IsLive after j → j ≢ i
    not_this j live e = live (
        ap (λ x. ProcessControlBlock.pid (pcb_at after x)) e
        ∙ ap (λ x. ProcessControlBlock.pid x) this_block
        ∙ dead)

    pub freed-IsIsolated : IsIsolated (set pcbs i pcb) p'
    unfolding after
    freed-IsIsolated = record {
      owned = λ j live.
          let ne = not_this j live in
          let (d', e', lt', u) = s.owned j (other-IsLive j ne live) in
          (
            d',
            other_directory j ne ∙ e',
            lt',
            (fr.others d' (λ same.
                  ne (s.distinct j i (other-IsLive j ne live) was (e' ∙ ap some same ∙ sym had)))).1
                ∙ u,
          );
      distinct = λ j l a b e.
          let nj = not_this j a in
          let nl = not_this l b in
          s.distinct j l (other-IsLive j nj a) (other-IsLive l nl b)
            (sym (other_directory j nj) ∙ e ∙ other_directory l nl);
    }
