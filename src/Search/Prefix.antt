-- ===== src/Search/Prefix.antt =====
-- One step of `knuth_morris_pratt`, which both of its loops make, and the prefix table `pi`.
use os_2024_ususbuntu_with_s.Prelude.{
  ℕ, zero, suc, ◌+◌, ◌-◌, ◌<◌, ◌≤◌, ◌≡◌, ◌≢◌, ◌⊎◌, inl, inr, refl, ◌∙◌, sym, ap, subst, true, false,
  List, [], ◌∷◌, ◌++◌, arith, length, length-append, ltb, ◌==◌, if◌then◌else◌, ◌&&◌, not,
  Bool-cases, ==-true, ==-false, get_or-append_left, get_or-append_self, dec_lt, ℕ_discrete,
}
use os_2024_ususbuntu_with_s.Bytes.{at}
use os_2024_ususbuntu_with_s.Search.{fall_back, advance, prefix_loop}
use os_2024_ususbuntu_with_s.Search.Match.{Matches, Longest, Matches-shift, Matches-border}

-- The table holds, for each prefix of `p` up to length `n`, the length of its longest border.
abbrev pub IsTable : List ℕ → List ℕ → ℕ → Type 0
IsTable p pi n = (k : ℕ) → 0 < k → k ≤ n → Longest p p 1 k (at pi (k - 1))

-- While the step falls back: `k` bytes match, and no match of the step's result is longer than
-- `k + 1`.
record Candidate (p t : List ℕ) (lo i k : ℕ) : Type 0 where
  start : ℕ
  ends : start + k ≡ i
  late : lo ≤ start
  matched : Matches p t start k
  bound : (s j : ℕ) → lo ≤ s → s + j ≡ i → Matches p t s (suc j) → j ≤ k

module _ (p t pi : List ℕ) (lo i n : ℕ) (table : IsTable p pi n) where
  -- What the loop leaves: a candidate that cannot fall further.
  record Fallen (r k : ℕ) : Type 0 where
    candidate : Candidate p t lo i r
    stopped : (r ≡ 0) ⊎ (at p r ≡ at t i)
    smaller : r ≤ k

  fall_back-stop :
      (fuel k : ℕ)
      → (ltb 0 k && not (at p k == at t i)) ≡ false
      → fall_back (suc fuel) p pi (at t i) k ≡ k
  unfolding fall_back
  fall_back-stop fuel k e = rw e

  fall_back-next :
      (fuel k : ℕ)
      → (ltb 0 k && not (at p k == at t i)) ≡ true
      → fall_back (suc fuel) p pi (at t i) k ≡ fall_back fuel p pi (at t i) (at pi (k - 1))
  unfolding fall_back
  fall_back-next fuel k e = rw e

  fall-Candidate :
      (k : ℕ)
      → 0 < k
      → k ≤ n
      → at p k ≢ at t i
      → Candidate p t lo i k
      → Candidate p t lo i (at pi (k - 1)) × (at pi (k - 1) < k)
  fall-Candidate k pos le ne c = (
    record {
      start = c.start + b.start;
      ends = omega (arith, b.ends, c.ends);
      late = omega (arith, c.late);
      matched = Matches-shift p t c.start b.start k (at pi (k - 1)) b.ends c.matched b.matched;
      bound = bound;
    },
    omega (arith, b.ends, b.late),
  )
    where
      b : Longest p p 1 k (at pi (k - 1))
      b = table k pos le

      differ : (s j : ℕ) → s + j ≡ i → Matches p t s (suc j) → j ≢ k
      differ s j e m j=k = ne (sym (ap (at p) j=k) ∙ m j (omega arith) ∙ ap (at t) e)

      bound : (s j : ℕ) → lo ≤ s → s + j ≡ i → Matches p t s (suc j) → j ≤ at pi (k - 1)
      bound s j h e m =
          let lt : j < k = omega (arith, c.bound s j h e m, differ s j e m) in
          b.longest (k - j) j (omega arith) (omega arith) (
            Matches-border p t c.start s k j (omega (arith, c.ends)) lt c.matched
              (λ x hx. m x (omega arith)))

  fall_back_lem :
      (fuel k : ℕ)
      → k ≤ fuel
      → k ≤ n
      → Candidate p t lo i k
      → Fallen (fall_back fuel p pi (at t i) k) k
  unfolding fall_back
  fall_back_lem zero k h le c = record {
    candidate = c;
    stopped = inl (omega arith);
    smaller = omega arith;
  }
  fall_back_lem (suc fuel) k h le c = elim (Bool-cases (ltb 0 k && not (at p k == at t i))) [
    | inl go ↦
        let pos : 0 < k = ground arith in
        let ne : at p k ≢ at t i = ground arith in
        let f : Candidate p t lo i (at pi (k - 1)) × (at pi (k - 1) < k) =
          fall-Candidate k pos le ne c in
        let r : Fallen (fall_back fuel p pi (at t i) (at pi (k - 1))) (at pi (k - 1)) =
          fall_back_lem fuel (at pi (k - 1)) (omega arith) (omega arith) f.0 in
        rw (fall_back-next fuel k go) (record {
          candidate = r.candidate;
          stopped = r.stopped;
          smaller = omega (arith, r.smaller);
        })
    | inr stop ↦
        rw (fall_back-stop fuel k stop)
          (record { candidate = c; stopped = ground arith; smaller = omega arith })
  ]

  start-Candidate : {k : ℕ} → Longest p t lo i k → Candidate p t lo i k
  start-Candidate l = record {
    start = l.start;
    ends = l.ends;
    late = l.late;
    matched = l.matched;
    bound = λ s j h e m. l.longest s j h e (λ x hx. m x (omega arith));
  }

  extend : (r : ℕ) → Candidate p t lo i r → at p r ≡ at t i → Longest p t lo (i + 1) (r + 1)
  extend r c e = record {
    start = c.start;
    ends = omega (arith, c.ends);
    late = c.late;
    matched = matched;
    longest = longest;
  }
    where
      matched : Matches p t c.start (r + 1)
      matched x h = elim (dec_lt x r) [
        | yes lt ↦ c.matched x lt
        | no ge ↦
            let x=r : x ≡ r = omega arith in ap (at p) x=r ∙ e ∙ ap (at t) (omega (arith, c.ends))
      ]

      longest : (s j : ℕ) → lo ≤ s → s + j ≡ i + 1 → Matches p t s j → j ≤ r + 1
      longest s zero h e m = omega arith
      longest s (suc j) h e m = omega (arith, c.bound s j h (omega arith) m)

  restart : Candidate p t lo i 0 → at p 0 ≢ at t i → Longest p t lo (i + 1) 0
  restart c ne = record {
    start = i + 1;
    ends = omega arith;
    late = omega (arith, c.ends, c.late);
    matched = λ x h. absurd (omega arith);
    longest = longest;
  }
    where
      longest : (s j : ℕ) → lo ≤ s → s + j ≡ i + 1 → Matches p t s j → j ≤ 0
      longest s zero h e m = omega arith
      longest s (suc j) h e m =
          absurd (ne (m 0 (omega arith) ∙ ap (at t) (omega (arith, c.bound s j h (omega arith) m))))

  finish : (r k : ℕ) → Fallen r k → Longest p t lo (i + 1) (if at p r == at t i then r + 1 else r)
  finish r k f = elim (ℕ_discrete (at p r) (at t i)) [
    | yes e ↦ rw (==-true (at p r) (at t i) e) (extend r f.candidate e)
    | no ne ↦
        let z : r ≡ 0 = ground (arith, f.stopped) in
        rw (==-false (at p r) (at t i) ne, z)
          (restart (subst (λ x. Candidate p t lo i x) z f.candidate)
            (subst (λ x. at p x ≢ at t i) z ne))
  ]

  -- One step of either loop takes the longest match at `i` to the longest match at `i + 1`.
  pub advance-Longest :
      {k : ℕ} → k ≤ n → Longest p t lo i k → Longest p t lo (i + 1) (advance p pi (at t i) k)
  unfolding advance
  advance-Longest {k} le l =
      finish (fall_back k p pi (at t i) k) k
        (fall_back_lem k k (omega arith) le (start-Candidate l))

  pub advance-le : {k : ℕ} → k ≤ n → Longest p t lo i k → advance p pi (at t i) k ≤ k + 1
  unfolding advance
  advance-le {k} le l =
      let r : Fallen (fall_back k p pi (at t i) k) k =
        fall_back_lem k k (omega arith) le (start-Candidate l) in
      ground (arith, r.smaller)

-- The table of the first byte alone.
pub IsTable-one : (p : List ℕ) → IsTable p (0 ∷ []) 1
IsTable-one p k pos le =
    let e : 1 ≡ k = omega arith in
    subst (λ k. Longest p p 1 k (at (0 ∷ []) (k - 1))) e
      (record {
        start = 1;
        ends = refl;
        late = omega arith;
        matched = λ x h. absurd (omega arith);
        longest = λ s j h e m. omega arith;
      })

-- One more entry: the table keeps its old ones.
IsTable-snoc :
    (p pi : List ℕ) (i k : ℕ)
    → length pi ≡ i
    → IsTable p pi i
    → Longest p p 1 (i + 1) k
    → IsTable p (pi ++ (k ∷ [])) (i + 1)
IsTable-snoc p pi i k len table l n pos le = elim (dec_lt i n) [
  | no old ↦ rw (get_or-append_left pi (k ∷ []) (n - 1) 0 (omega arith)) (table n pos (omega arith))
  | yes new ↦
      rw (get_or-append_self pi [] k (n - 1) 0 (omega arith))
        (subst (λ x. Longest p p 1 x k) (omega arith) l)
]

-- `prefix_loop` completes the table, and the last entry is the state it goes on from.
pub prefix_loop-IsTable :
    (rounds : ℕ) (p : List ℕ) (i k : ℕ) (pi : List ℕ)
    → 0 < i
    → length pi ≡ i
    → IsTable p pi i
    → Longest p p 1 i k
    → IsTable p (prefix_loop rounds p i k pi) (i + rounds)
unfolding prefix_loop
prefix_loop-IsTable zero p i k pi pos len table l = subst (λ x. IsTable p pi x) (omega arith) table
prefix_loop-IsTable (suc rounds) p i k pi pos len table l =
    let le : k ≤ i = omega (arith, l.ends) in
    let l' : Longest p p 1 (i + 1) (advance p pi (at p i) k) =
      advance-Longest p p pi 1 i i table le l in
    subst (λ x. IsTable p (prefix_loop (suc rounds) p i k pi) x) (omega arith)
      (prefix_loop-IsTable rounds p (i + 1) (advance p pi (at p i) k)
        (pi ++ (advance p pi (at p i) k ∷ [])) (omega arith)
        (omega (arith, length-append pi (advance p pi (at p i) k ∷ [])))
        (IsTable-snoc p pi i (advance p pi (at p i) k) len table l') l')
