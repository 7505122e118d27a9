-- ===== src/Process/Destroy.antt =====
-- `process_destroy` (src/process.c): which process it ends, and what stays.
use os_2024_ususbuntu_with_s.Prelude.{
  ℕ, ◌<◌, ◌≡◌, ◌≢◌, refl, sym, ap, ◌∙◌, inl, inr, ◌⊎◌, true, false, none, Option-cases, arith, set,
  ℕ_discrete, List,
}
use os_2024_ususbuntu_with_s.Process.{
  Kernel, ProcessControlBlock, process_terminated, pcb_at, pid_loop, process_count_max,
  process_list_get_pcb_by_pid, process_destroy,
}
use os_2024_ususbuntu_with_s.Process.Invariant.{
  IsProcessList, pid_loop-some, pid_loop-found, pcb_at_self, pcb_at-ne, set-IsProcessList,
}

-- The block of a destroyed process.
abbrev pub ended : ProcessControlBlock → ProcessControlBlock
ended pcb = record pcb { pid = 0; name = set pcb.name 0 0; state = process_terminated }

-- The process at slot `i` is destroyed.
pub record IsDestroyed (k : Kernel) (pid i : ℕ) (k' : Kernel) : Type 0 where
  pub low : i < process_count_max
  pub was : (pcb_at k.process_list i).pid ≡ pid
  pub gone : process_list_get_pcb_by_pid k'.process_list pid ≡ none
  pub inactive : (pcb_at k'.process_list i).pid ≡ 0
  pub others : (j : ℕ) → j ≢ i → pcb_at k'.process_list j ≡ pcb_at k.process_list j
  pub processes : IsProcessList k'.process_list k'.pid_counter
  pub still_counted : k'.active_process_count ≡ k.active_process_count

module _ (k : Kernel) (v : IsProcessList k.process_list k.pid_counter) (pid : ℕ)
    (nz : pid ≢ 0) where
  ended-gone :
      (i : ℕ)
      → i < process_count_max
      → (pcb_at k.process_list i).pid ≡ pid
      → process_list_get_pcb_by_pid (set k.process_list i (ended (pcb_at k.process_list i))) pid
        ≡ none
  unfolding process_list_get_pcb_by_pid
  ended-gone i lt was = elim (Option-cases (pid_loop 16 0 after pid)) [
    | inl e ↦ e
    | inr (j, e) ↦ absurd (contra j (pid_loop-some 16 0 after pid j e).2)
  ]
    where
      after : List ProcessControlBlock
      after = set k.process_list i (ended (pcb_at k.process_list i))

      contra : (j : ℕ) → (pcb_at after j).pid ≡ pid → ⊥
      contra j e = elim (ℕ_discrete j i) [
        | yes eq ↦ nz (
            sym e
            ∙ (ap (λ x. (pcb_at after x).pid) eq
                ∙ ap (λ x. ProcessControlBlock.pid x)
                    (pcb_at_self k.process_list k.pid_counter v i lt
                      (ended (pcb_at k.process_list i)))))
        | no ne ↦
            let same : pcb_at after j ≡ pcb_at k.process_list j =
              pcb_at-ne k.process_list k.pid_counter v i lt (ended (pcb_at k.process_list i)) j
                ne in
            ne (
              v.unique j i (λ z. nz (sym e ∙ (ap (λ x. ProcessControlBlock.pid x) same ∙ z)))
                (sym (ap (λ x. ProcessControlBlock.pid x) same) ∙ (e ∙ sym was)))
      ]

  -- In a well-formed process list and for an identifier other than 0, either no slot has the
  -- identifier, process_destroy returns false and nothing changes; or it returns true, the one
  -- slot with the identifier becomes inactive, the identifier is no longer found, the other
  -- processes and the list's form stay, and the count of active processes stays as it was.
  pub process_destroy-IsDestroyed :
      ((process_destroy k pid ≡ (false, k))
        × ((j : ℕ) → j < process_count_max → (pcb_at k.process_list j).pid ≢ pid))
      ⊎ ((i : ℕ) × (k' : Kernel) × (process_destroy k pid ≡ (true, k')) × IsDestroyed k pid i k')
  unfolding process_destroy process_list_get_pcb_by_pid
  process_destroy-IsDestroyed = elim (Option-cases (pid_loop 16 0 k.process_list pid)) [
    | inl e ↦ inl (
      rw (process_destroy, process_list_get_pcb_by_pid, e) refl,
      λ j lt h. pid_loop-found 16 0 k.process_list pid j (omega arith) (omega arith) h e,
    )
    | inr (i, e) ↦
        let (low, high, was) = pid_loop-some 16 0 k.process_list pid i e in
        let lt : i < process_count_max = omega (arith, high) in
        let pcb : ProcessControlBlock = ended (pcb_at k.process_list i) in
        inr (
          i,
          (process_destroy k pid).1,
          rw (process_destroy, process_list_get_pcb_by_pid, e) refl,
          rw (process_destroy, process_list_get_pcb_by_pid, e)
              record {
                low = lt;
                was = was;
                gone = ended-gone i lt was;
                inactive =
                    ap (λ x. ProcessControlBlock.pid x)
                      (pcb_at_self k.process_list k.pid_counter v i lt pcb);
                others = pcb_at-ne k.process_list k.pid_counter v i lt pcb;
                processes =
                    set-IsProcessList k.process_list k.pid_counter v i lt pcb k.pid_counter
                      (omega arith) v.counted (λ j a b. absurd (b refl));
                still_counted = refl;
              },
        )
  ]
