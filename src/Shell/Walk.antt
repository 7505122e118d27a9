-- ===== src/Shell/Walk.antt =====
-- `cd` of src/user-shell.c: the prompt's directory text on the way down and back.
use os_2024_ususbuntu_with_s.Prelude.{
  ℕ, zero, suc, ◌+◌, ◌-◌, ◌%◌, ◌<◌, ◌≤◌, ◌≡◌, ◌≢◌, refl, sym, ap, ◌∙◌, List, [], ◌∷◌, ◌==◌, length,
  arith, Bool-cases, inl, inr, ==_iff, ==-true, set, length-set, get_or-set_self, get_or-set_ne,
  dec_lt,
}
use os_2024_ususbuntu_with_s.Bytes.{at}
use os_2024_ususbuntu_with_s.Shell.{cut_loop, append_loop}

abbrev pub slash : ℕ
slash = b'/'

-- The loop that cuts the last name off.
pub record IsCut (base : ℕ) (dir : List ℕ) (r : List ℕ × ℕ) : Type 0 where
  pub ends : r.1 ≡ base - 1
  pub sized : length r.0 ≡ length dir
  pub below : (k : ℕ) → k < base → at r.0 k ≡ at dir k

pub cut_loop-IsCut :
    (fuel : ℕ) (dir : List ℕ) (i base : ℕ)
    → base ≤ i + 1
    → i + 2 ≤ base + fuel
    → 0 < base
    → i < 256
    → at dir (base - 1) ≡ slash
    → ((k : ℕ) → base ≤ k → k ≤ i → at dir k ≢ slash)
    → IsCut base dir (cut_loop fuel dir i)
unfolding cut_loop
cut_loop-IsCut zero dir i base a b c d e f = absurd (omega arith)
cut_loop-IsCut (suc fuel) dir i base a b c d e f = elim (Bool-cases (at dir i == slash)) [
  | inl h ↦
      let here : i ≡ base - 1 = elim (dec_lt i base) [
        | yes lt ↦ omega arith
        | no ge ↦ absurd (f i (omega arith) (omega arith) ((==_iff (at dir i) slash).0 h))
      ] in
      rw h (record { ends = here; sized = refl; below = λ k lt. refl })
  | inr h ↦
      let past : base ≤ i = elim (dec_lt i base) [
        | yes lt ↦ absurd (
            cc (h, ==-true (at dir i) slash (ap (at dir) {x = i} {y = base - 1} (omega arith) ∙ e)))
        | no ge ↦ omega arith
      ] in
      let back : (i + 255) % 256 ≡ i - 1 = omega arith in
      let same : (k : ℕ) → k < i → at (set dir i 0) k ≡ at dir k =
        λ k lt. get_or-set_ne dir i k 0 0 (omega arith) in
      let ih : IsCut base (set dir i 0) (cut_loop fuel (set dir i 0) (i - 1)) =
        cut_loop-IsCut fuel (set dir i 0) (i - 1) base (omega arith) (omega arith) c (omega arith)
          (same (base - 1) (omega arith) ∙ e)
          (λ k lo hi z. f k lo (omega arith) (sym (same k (omega arith)) ∙ z)) in
      rw (h, back)
        (record {
          ends = ih.ends;
          sized = ih.sized ∙ length-set dir i 0;
          below = λ k lt. ih.below k lt ∙ same k (omega arith);
        })
]

-- The loop that appends a name.
pub record IsAppended (name dir : List ℕ) (i : ℕ) (r : List ℕ × ℕ) : Type 0 where
  pub ends : r.1 ≡ i + length name
  pub sized : length r.0 ≡ length dir
  pub below : (k : ℕ) → k < i → at r.0 k ≡ at dir k
  pub written : (k : ℕ) → k < length name → at r.0 (i + k) ≡ at name k

written_at :
    (c : ℕ) (name dir : List ℕ) (i : ℕ) (r : List ℕ × ℕ)
    → IsAppended name (set dir i c) (i + 1) r
    → i < length dir
    → (k : ℕ) → k < suc (length name)
    → at r.0 (i + k) ≡ at (c ∷ name) k
written_at c name dir i r ih fits zero lt =
    ap (at r.0) {x = i + 0} {y = i} (omega arith)
    ∙ ih.below i (omega arith)
    ∙ get_or-set_self dir i c 0 fits
written_at c name dir i r ih fits (suc k) lt =
    ap (at r.0) {x = i + suc k} {y = i + 1 + k} (omega arith) ∙ ih.written k (omega arith)

pub append_loop-IsAppended :
    (name dir : List ℕ) (i : ℕ)
    → i + length name < length dir
    → length dir ≤ 255
    → IsAppended name dir i (append_loop name dir i)
unfolding append_loop
append_loop-IsAppended [] dir i fits small = record {
  ends = omega arith;
  sized = refl;
  below = λ k lt. refl;
  written = λ k lt. absurd (omega arith);
}
append_loop-IsAppended (c ∷ name) dir i fits small =
    let next : (i + 1) % 256 ≡ i + 1 = omega arith in
    let ih : IsAppended name (set dir i c) (i + 1) (append_loop name (set dir i c) (i + 1)) =
      append_loop-IsAppended name (set dir i c) (i + 1) (omega (arith, length-set dir i c))
        (omega (arith, length-set dir i c)) in
    rw next (record {
      ends = omega (arith, ih.ends);
      sized = ih.sized ∙ length-set dir i c;
      below = λ k lt. ih.below k (omega arith) ∙ get_or-set_ne dir i k c 0 (omega arith);
      written = written_at c name dir i (append_loop name (set dir i c) (i + 1)) ih (omega arith);
    })
