-- ===== src/Search/Kmp.antt =====
-- `knuth_morris_pratt` (src/fat32.c) against the occurrences of a pattern in a text.
use os_2024_ususbuntu_with_s.Prelude.{
  ℕ, zero, suc, ◌+◌, ◌-◌, ◌<◌, ◌≤◌, ◌≡◌, ◌↔◌, refl, true, false, List, [], ◌∷◌, arith, subst, ◌==◌,
  ==-true, ==-false, ℕ_discrete,
}
use os_2024_ususbuntu_with_s.Bytes.{at, strlen}
use os_2024_ususbuntu_with_s.Search.{advance, prefix_loop, text_loop, knuth_morris_pratt}
use os_2024_ususbuntu_with_s.Search.Match.{Matches, Occurs, Longest}
use os_2024_ususbuntu_with_s.Search.Prefix.{
  IsTable, IsTable-one, advance-Longest, advance-le, prefix_loop-IsTable,
}

-- An occurrence that ends in `t[i..i + rounds]`, past `i`.
abbrev EndsWithin : List ℕ → List ℕ → ℕ → ℕ → ℕ → Type 0
EndsWithin p t m i rounds = (s : ℕ) × (i < s + m) × (s + m ≤ i + rounds) × Matches p t s m

empty-Longest : (p t : List ℕ) → Longest p t 0 0 0
empty-Longest p t = record {
  start = 0;
  ends = refl;
  late = omega arith;
  matched = λ x h. absurd (omega arith);
  longest = λ s j h e m. omega arith;
}

-- If the longest match at `i + 1` is short of `m`, an occurrence that ends past `i` ends later.
later :
    (p t : List ℕ) (i k m : ℕ)
    → Longest p t 0 (i + 1) k
    → k < m
    → (s : ℕ) → i < s + m
    → Matches p t s m
    → i + 1 < s + m
later p t i k m l h s past f = elim (ℕ_discrete (s + m) (i + 1)) [
  | yes e ↦ absurd (omega (arith, l.longest s m (omega arith) e f))
  | no ne ↦ omega arith
]

module _ (p pi t : List ℕ) (m : ℕ) (table : IsTable p pi m) where
  text_loop-hit :
      (rounds i j : ℕ) → advance p pi (at t i) j ≡ m → text_loop (suc rounds) p pi t m i j ≡ true
  unfolding text_loop
  text_loop-hit rounds i j e = rw (==-true (advance p pi (at t i) j) m e)

  text_loop-miss :
      (rounds i j : ℕ)
      → ((advance p pi (at t i) j == m) ≡ false)
      → text_loop (suc rounds) p pi t m i j
        ≡ text_loop rounds p pi t m (i + 1) (advance p pi (at t i) j)
  unfolding text_loop
  text_loop-miss rounds i j e = rw e

  text_loop_lem :
      (rounds i j : ℕ)
      → j < m
      → Longest p t 0 i j
      → (text_loop rounds p pi t m i j ≡ true) ↔ EndsWithin p t m i rounds
  unfolding text_loop
  text_loop_lem zero i j h l = (λ e. cc, λ w. absurd (omega (arith, w.1, w.2)))
  text_loop_lem (suc rounds) i j h l =
      let l' : Longest p t 0 (i + 1) (advance p pi (at t i) j) =
        advance-Longest p t pi 0 i m table (omega arith) l in
      elim (ℕ_discrete (advance p pi (at t i) j) m) [
        | yes e ↦ (
          λ _. (
            l'.start,
            omega (arith, l'.ends),
            omega (arith, l'.ends),
            λ x hx. l'.matched x (omega arith),
          ),
          λ _. text_loop-hit rounds i j e,
        )
        | no ne ↦
            let le : advance p pi (at t i) j ≤ j + 1 =
              advance-le p t pi 0 i m table (omega arith) l in
            let ih : (text_loop rounds p pi t m (i + 1) (advance p pi (at t i) j) ≡ true)
                ↔ EndsWithin p t m (i + 1) rounds =
              text_loop_lem rounds (i + 1) (advance p pi (at t i) j) (omega arith) l' in
            rw (text_loop-miss rounds i j (==-false _ _ ne)) (
              (
                λ e.
                    let w : EndsWithin p t m (i + 1) rounds = ih.0 e in
                    (w.0, omega (arith, w.1), omega (arith, w.2), w.3),
                λ w. ih.1 (
                  w.0,
                  later p t i (advance p pi (at t i) j) m l' (omega arith) w.0 w.1 w.3,
                  omega (arith, w.2),
                  w.3,
                ),
              ))
      ]

-- For a pattern that is not empty, the Knuth-Morris-Pratt search returns true exactly when the
-- pattern occurs in the text.
pub knuth_morris_pratt-Occurs :
    (pattern text : List ℕ)
    → 0 < strlen pattern
    → (knuth_morris_pratt pattern text ≡ true) ↔ Occurs pattern text
unfolding knuth_morris_pratt
knuth_morris_pratt-Occurs p t pos = rw (==-false (strlen p) 0 (omega arith)) (
  λ e. let w : EndsWithin p t (strlen p) 0 (strlen t) = loop.0 e in (w.0, omega (arith, w.2), w.3),
  λ w. loop.1 (w.0, omega arith, omega (arith, w.1), w.2),
)
  where
    table : IsTable p (prefix_loop (strlen p - 1) p 1 0 (0 ∷ [])) (strlen p)
    table = subst (IsTable p (prefix_loop (strlen p - 1) p 1 0 (0 ∷ []))) (omega arith) (
        prefix_loop-IsTable (strlen p - 1) p 1 0 (0 ∷ []) (omega arith) refl (IsTable-one p)
          (IsTable-one p 1 (omega arith) (omega arith)))

    loop :
        (text_loop (strlen t) p (prefix_loop (strlen p - 1) p 1 0 (0 ∷ [])) t (strlen p) 0 0 ≡ true)
        ↔ EndsWithin p t (strlen p) 0 (strlen t)
    loop =
        text_loop_lem p (prefix_loop (strlen p - 1) p 1 0 (0 ∷ [])) t (strlen p) table (strlen t) 0
          0 pos (empty-Longest p t)
