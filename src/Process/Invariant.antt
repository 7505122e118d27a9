-- ===== src/Process/Invariant.antt =====
-- The process list of src/process.c: its length, and that process identifiers are fresh and unique;
-- the searches by identifier.
use os_2024_ususbuntu_with_s.Prelude.{
  ℕ, zero, suc, ◌+◌, ◌<◌, ◌≤◌, ◌≡◌, ◌≢◌, sym, ap, ◌∙◌, subst, List, none, some, arith, length, set,
  get_or-set_self, get_or-set_ne, length-set, ℕ_discrete,
}
use os_2024_ususbuntu_with_s.Process.{
  ProcessControlBlock, empty_pcb, pcb_at, pid_loop, process_count_max,
}

-- 16 process control blocks whose identifiers are 0 or below the counter, and differ if not 0.
pub record IsProcessList (pcbs : List ProcessControlBlock) (pid_counter : ℕ) : Type 0 where
  pub sized : length pcbs ≡ process_count_max
  pub counted : 0 < pid_counter
  pub fresh : (i : ℕ) → (pcb_at pcbs i).pid < pid_counter
  pub unique :
      (i j : ℕ) → (pcb_at pcbs i).pid ≢ 0 → (pcb_at pcbs i).pid ≡ (pcb_at pcbs j).pid → i ≡ j

pub pid_loop-some :
    (rounds lo : ℕ) (pcbs : List ProcessControlBlock) (pid i : ℕ)
    → pid_loop rounds lo pcbs pid ≡ some i
    → (lo ≤ i) × (i < lo + rounds) × ((pcb_at pcbs i).pid ≡ pid)
unfolding pid_loop
pid_loop-some zero lo pcbs pid i h = absurd (ground (arith, h))
pid_loop-some (suc rounds) lo pcbs pid i h = elim (ℕ_discrete (pcb_at pcbs lo).pid pid) [
  | yes e ↦
      let eq : lo ≡ i = ground (arith, e, h) in
      (omega (arith, eq), omega (arith, eq), subst (λ x. (pcb_at pcbs x).pid ≡ pid) eq e)
  | no ne ↦
      let (a, b, c) = pid_loop-some rounds (lo + 1) pcbs pid i (ground (arith, ne, h)) in
      (omega (arith, a), omega (arith, b), c)
]

pub pid_loop-found :
    (rounds lo : ℕ) (pcbs : List ProcessControlBlock) (pid j : ℕ)
    → lo ≤ j
    → j < lo + rounds
    → (pcb_at pcbs j).pid ≡ pid
    → pid_loop rounds lo pcbs pid ≢ none
unfolding pid_loop
pid_loop-found zero lo pcbs pid j a b e = absurd (omega arith)
pid_loop-found (suc rounds) lo pcbs pid j a b e = elim (ℕ_discrete (pcb_at pcbs lo).pid pid) [
  | yes eq ↦ λ h. absurd (ground (arith, eq, h))
  | no ne ↦ λ h.
      pid_loop-found rounds (lo + 1) pcbs pid j
        (elim (ℕ_discrete lo j) [
          | yes eq ↦ absurd (ne (subst (λ x. (pcb_at pcbs x).pid ≡ pid) (sym eq) e))
          | no neq ↦ omega arith
        ])
        (omega arith) e (ground (arith, ne, h))
]

-- A block stored at a slot, with an identifier that is 0 or new.
module _ (pcbs : List ProcessControlBlock) (n : ℕ) (v : IsProcessList pcbs n) (i : ℕ)
    (lt : i < process_count_max) (pcb : ProcessControlBlock) where
  pub pcb_at_self : pcb_at (set pcbs i pcb) i ≡ pcb
  pcb_at_self = get_or-set_self pcbs i pcb empty_pcb (omega (arith, v.sized, lt))

  pub pcb_at-ne : (j : ℕ) → j ≢ i → pcb_at (set pcbs i pcb) j ≡ pcb_at pcbs j
  pcb_at-ne j ne = get_or-set_ne pcbs i j pcb empty_pcb (λ e. ne (sym e))

  pid-ne : (j : ℕ) → j ≢ i → (pcb_at (set pcbs i pcb) j).pid ≡ (pcb_at pcbs j).pid
  pid-ne j ne = ap (λ x. ProcessControlBlock.pid x) (pcb_at-ne j ne)

  pid_self : (pcb_at (set pcbs i pcb) i).pid ≡ pcb.pid
  pid_self = ap (λ x. ProcessControlBlock.pid x) pcb_at_self

  pub set-IsProcessList :
      (m : ℕ)
      → n ≤ m
      → pcb.pid < m
      → ((j : ℕ) → j ≢ i → pcb.pid ≢ 0 → (pcb_at pcbs j).pid ≢ pcb.pid)
      → IsProcessList (set pcbs i pcb) m
  set-IsProcessList m le small other = record {
    sized = length-set pcbs i pcb ∙ v.sized;
    counted = omega (arith, v.counted);
    fresh = λ j. elim (ℕ_discrete j i) [
      | yes e ↦ subst (λ x. (pcb_at (set pcbs i pcb) x).pid < m) (sym e) (omega (arith, pid_self))
      | no ne ↦ omega (arith, pid-ne j ne, v.fresh j)
    ];
    unique = λ j k nz e. elim (ℕ_discrete j i) [
      | yes ej ↦ elim (ℕ_discrete k i) [
        | yes ek ↦ omega (arith, ej, ek)
        | no nk ↦ absurd (
            other k nk (λ z. nz (ap (λ x. (pcb_at (set pcbs i pcb) x).pid) ej ∙ (pid_self ∙ z)))
              (sym (pid-ne k nk)
                ∙ (sym e ∙ (ap (λ x. (pcb_at (set pcbs i pcb) x).pid) ej ∙ pid_self))))
      ]
      | no nj ↦ elim (ℕ_discrete k i) [
        | yes ek ↦ absurd (
            other j nj
              (λ z. nz (e ∙ (ap (λ x. (pcb_at (set pcbs i pcb) x).pid) ek ∙ (pid_self ∙ z))))
              (sym (pid-ne j nj) ∙ (e ∙ (ap (λ x. (pcb_at (set pcbs i pcb) x).pid) ek ∙ pid_self))))
        | no nk ↦ v.unique j k (λ z. nz (pid-ne j nj ∙ z)) (sym (pid-ne j nj) ∙ (e ∙ pid-ne k nk))
      ]
    ];
  }
