-- ===== src/Search/Bm.antt =====
-- `boyer_moore` (src/fat32.c) against the occurrences of a pattern in a text.
use os_2024_ususbuntu_with_s.Prelude.{
  ℕ, zero, suc, ◌+◌, ◌-◌, ◌<◌, ◌≤◌, ◌≡◌, ◌≢◌, ◌↔◌, inl, inr, refl, sym, ap, ◌∙◌, true, false, List,
  Option, none, some, arith, subst, leb, ==-true, ==-false, set, get_or, replicate, length,
  length-replicate, get_or-set_self, get_or-set_ne, length-set, dec_lt, ℕ_discrete, All, All-get_or,
  Bool-cases, leb→le, leb-false, leb_of_lt,
}
use os_2024_ususbuntu_with_s.Bytes.{at, strlen}
use os_2024_ususbuntu_with_s.Search.{last_loop, scan_back, shift, window_loop, boyer_moore}
use os_2024_ususbuntu_with_s.Search.Match.{Matches, Occurs}

-- `bad_char` says of each byte where it stands last in `p[0..m)`, or that it does not stand there.
abbrev IsLast : List ℕ → ℕ → ℕ → Option ℕ → Type 0
IsLast p m c none = (x : ℕ) → x < m → at p x ≢ c
IsLast p m c (some b) = (x : ℕ) → b < x → x < m → at p x ≢ c

abbrev IsLastTable : List ℕ → ℕ → List (Option ℕ) → Type 0
IsLastTable p m bad_char = (c : ℕ) → c < 256 → IsLast p m c (get_or bad_char c none)

get_or-replicate : (n c : ℕ) → get_or {A = Option ℕ} (replicate n none) c none ≡ none
get_or-replicate zero c = refl
get_or-replicate (suc n) zero = refl
get_or-replicate (suc n) (suc c) = get_or-replicate n c

-- One round more, at the byte that the round writes and at any other.
IsLast-here : (p : List ℕ) (i c : ℕ) → IsLast p (i + 1) c (some i)
IsLast-here p i c x h k = absurd (omega arith)

IsLast-other :
    (p : List ℕ) (i c : ℕ) (o : Option ℕ) → at p i ≢ c → IsLast p i c o → IsLast p (i + 1) c o
IsLast-other p i c none ne l =
    λ x h. elim (dec_lt x i) [ yes lt ↦ l x lt | no ge ↦ subst (λ y. at p y ≢ c) (omega arith) ne ]
IsLast-other p i c (some b) ne l = λ x k h. elim (dec_lt x i) [
  | yes lt ↦ l x k lt
  | no ge ↦ subst (λ y. at p y ≢ c) (omega arith) ne
]

IsLastTable-set :
    (p : List ℕ) (i : ℕ) (bad_char : List (Option ℕ))
    → length bad_char ≡ 256
    → IsLastTable p i bad_char
    → IsLastTable p (i + 1) (set bad_char (at p i) (some i))
IsLastTable-set p i bad_char len table c h = elim (ℕ_discrete (at p i) c) [
  | yes e ↦ rw (e, get_or-set_self bad_char c (some i) none (omega arith)) (IsLast-here p i c)
  | no ne ↦
      rw (get_or-set_ne bad_char (at p i) c (some i) none ne)
        (IsLast-other p i c (get_or bad_char c none) ne (table c h))
]

last_loop-IsLastTable :
    (rounds : ℕ) (p : List ℕ) (i : ℕ) (bad_char : List (Option ℕ))
    → length bad_char ≡ 256
    → IsLastTable p i bad_char
    → IsLastTable p (i + rounds) (last_loop rounds p i bad_char)
unfolding last_loop
last_loop-IsLastTable zero p i bad_char len table =
    subst (λ m. IsLastTable p m bad_char) (omega arith) table
last_loop-IsLastTable (suc rounds) p i bad_char len table =
    subst (λ m. IsLastTable p m (last_loop (suc rounds) p i bad_char)) (omega arith)
      (last_loop-IsLastTable rounds p (i + 1) (set bad_char (at p i) (some i))
        (omega (arith, length-set bad_char (at p i) (some i)))
        (IsLastTable-set p i bad_char len table))

-- What the backward scan leaves, counted from one: everything past `j` matches, and `j` does not.
record Scanned (p t : List ℕ) (s m r : ℕ) : Type 0 where
  inside : r ≤ m
  tail : (x : ℕ) → r ≤ x → x < m → at p x ≡ at t (s + x)
  differs : (j : ℕ) → r ≡ suc j → at p j ≢ at t (s + j)

scan_back-Scanned :
    (p t : List ℕ) (s m k : ℕ)
    → k ≤ m
    → ((x : ℕ) → k ≤ x → x < m → at p x ≡ at t (s + x))
    → Scanned p t s m (scan_back p t s k)
unfolding scan_back
scan_back-Scanned p t s m zero h f = record {
  inside = omega arith;
  tail = f;
  differs = λ j e. absurd (omega arith);
}
scan_back-Scanned p t s m (suc k) h f = elim (ℕ_discrete (at p k) (at t (s + k))) [
  | yes e ↦ rw (==-true (at p k) (at t (s + k)) e) (
      scan_back-Scanned p t s m k (omega arith) (λ x lo hi. elim (ℕ_discrete x k) [
        | yes x=k ↦ ap (at p) x=k ∙ e ∙ ap (λ y. at t (s + y)) (sym x=k)
        | no ne ↦ f x (omega arith) hi
      ]))
  | no ne ↦ rw (==-false (at p k) (at t (s + k)) ne) (record {
    inside = h;
    tail = f;
    differs = λ j e. subst (λ y. at p y ≢ at t (s + y)) (omega arith) ne;
  })
]

shift-pos : (j : ℕ) (o : Option ℕ) → 0 < shift j o
unfolding shift
shift-pos j none = ground arith
shift-pos j (some b) = ground arith

-- An occurrence from `s'` has the byte that stopped the scan at `s + j - s'`.
moved :
    (p t : List ℕ) (m s j s' : ℕ)
    → j < m
    → s ≤ s'
    → s' ≤ s + j
    → Matches p t s' m
    → at p (s + j - s') ≡ at t (s + j)
moved p t m s j s' h lo hi f = f (s + j - s') (omega arith) ∙ ap (at t) (omega arith)

-- No occurrence starts between `s` and the next window.
skip :
    (p t : List ℕ) (m s j : ℕ) (o : Option ℕ)
    → j < m
    → at p j ≢ at t (s + j)
    → IsLast p m (at t (s + j)) o
    → (s' : ℕ) → s ≤ s'
    → s' < s + shift j o
    → ¬ Matches p t s' m
unfolding shift
skip p t m s j none h ne l s' lo hi f =
    let le : s' ≤ s + j = ground arith in
    l (s + j - s') (omega arith) (moved p t m s j s' h lo le f)
skip p t m s j (some b) h ne l s' lo hi f = elim (ℕ_discrete s' s) [
  | yes e ↦ ne (f j h ∙ ap (λ y. at t (y + j)) e)
  | no apart ↦
      let far : b + 1 < j = ground arith in
      let near : s' < s + (j - b) = ground arith in
      l (s + j - s') (omega arith) (omega arith) (moved p t m s j s' h lo (omega arith) f)
]

module _ (p : List ℕ) (bad_char : List (Option ℕ)) (t : List ℕ) (m n : ℕ) where
  -- The window that a round of the loop goes on to.
  abbrev next : ℕ → ℕ
  next s =
      s + shift (scan_back p t s m - 1) (get_or bad_char (at t (s + (scan_back p t s m - 1))) none)

  -- An occurrence that starts no earlier than `s`.
  abbrev StartsFrom : ℕ → Type 0
  StartsFrom s = (s' : ℕ) × (s ≤ s') × (s' + m ≤ n) × Matches p t s' m

  window_loop-out :
      (fuel s : ℕ) → leb (s + m) n ≡ false → window_loop fuel p bad_char t m n s ≡ false
  unfolding window_loop
  window_loop-out zero s e = refl
  window_loop-out (suc fuel) s e = rw e

  window_loop-hit :
      (fuel s : ℕ)
      → leb (s + m) n ≡ true
      → scan_back p t s m ≡ 0
      → window_loop (suc fuel) p bad_char t m n s ≡ true
  unfolding window_loop
  window_loop-hit fuel s e z = rw (e, ==-true (scan_back p t s m) 0 z)

  window_loop-miss :
      (fuel s : ℕ)
      → leb (s + m) n ≡ true
      → scan_back p t s m ≢ 0
      → window_loop (suc fuel) p bad_char t m n s ≡ window_loop fuel p bad_char t m n (next s)
  unfolding window_loop
  window_loop-miss fuel s e z = rw (e, ==-false (scan_back p t s m) 0 z)

  module _ (table : IsLastTable p m bad_char) (bytes : (i : ℕ) → at t i < 256) where
    next-pos : (s : ℕ) → s < next s
    next-pos s = omega (
      arith,
      shift-pos (scan_back p t s m - 1) (get_or bad_char (at t (s + (scan_back p t s m - 1))) none),
    )

    skip_to_next : (s : ℕ) → scan_back p t s m ≢ 0 → StartsFrom s → StartsFrom (next s)
    skip_to_next s ne w = elim (dec_lt w.0 (next s)) [
      | no ge ↦ (w.0, omega arith, w.2, w.3)
      | yes lt ↦
          let sc : Scanned p t s m (scan_back p t s m) =
            scan_back-Scanned p t s m m (omega arith) (λ x lo hi. absurd (omega arith)) in
          absurd (
            skip p t m s (scan_back p t s m - 1)
              (get_or bad_char (at t (s + (scan_back p t s m - 1))) none) (omega (arith, sc.inside))
              (sc.differs (scan_back p t s m - 1) (omega arith))
              (table (at t (s + (scan_back p t s m - 1))) (bytes (s + (scan_back p t s m - 1)))) w.0
              w.1 lt w.3)
    ]

    window_loop_lem :
        (fuel s : ℕ)
        → n < s + m + fuel
        → (window_loop fuel p bad_char t m n s ≡ true) ↔ StartsFrom s
    window_loop_lem zero s h =
        rw (window_loop-out zero s (leb_of_lt (s + m) n (omega arith)))
          (λ e. cc, λ w. absurd (omega (arith, w.1, w.2)))
    window_loop_lem (suc fuel) s h = elim (Bool-cases (leb (s + m) n)) [
      | inr out ↦
          let gone : n < s + m = leb-false (s + m) n out in
          rw (window_loop-out (suc fuel) s out) (λ e. cc, λ w. absurd (omega (arith, w.1, w.2)))
      | inl fits ↦ elim (ℕ_discrete (scan_back p t s m) 0) [
        | yes z ↦
            let sc : Scanned p t s m (scan_back p t s m) =
              scan_back-Scanned p t s m m (omega arith) (λ x lo hi. absurd (omega arith)) in
            rw (window_loop-hit fuel s fits z) (
              λ _. (s, omega arith, leb→le (s + m) n fits, λ x hx. sc.tail x (omega arith) hx),
              λ _. refl,
            )
        | no ne ↦
            let ih : (window_loop fuel p bad_char t m n (next s) ≡ true) ↔ StartsFrom (next s) =
              window_loop_lem fuel (next s) (omega (arith, next-pos s)) in
            rw (window_loop-miss fuel s fits ne) (
              λ e.
                  let w : StartsFrom (next s) = ih.0 e in
                  (w.0, omega (arith, w.1, next-pos s), w.2, w.3),
              λ w. ih.1 (skip_to_next s ne w),
            )
      ]
    ]

table_of : (p : List ℕ) → IsLastTable p (strlen p) (last_loop (strlen p) p 0 (replicate 256 none))
table_of p =
    subst (λ m. IsLastTable p m (last_loop (strlen p) p 0 (replicate 256 none))) (omega arith)
      (last_loop-IsLastTable (strlen p) p 0 (replicate 256 none)
        (length-replicate {A = Option ℕ} 256 none)
        (λ c h. rw (get_or-replicate 256 c) (λ x k. absurd (omega arith))))

-- For a text of bytes, the Boyer-Moore search returns true exactly when the pattern occurs in the
-- text.
pub boyer_moore-Occurs :
    (pattern text : List ℕ)
    → All (λ c. c < 256) text
    → (boyer_moore pattern text ≡ true) ↔ Occurs pattern text
unfolding boyer_moore
boyer_moore-Occurs p t bytes = (
  λ e. let w : StartsFrom p b t (strlen p) (strlen t) 0 = loop.0 e in (w.0, w.2, w.3),
  λ w. loop.1 (w.0, omega arith, w.1, w.2),
)
  where
    b : List (Option ℕ)
    b = last_loop (strlen p) p 0 (replicate 256 none)

    loop :
        (window_loop (strlen t + 1) p b t (strlen p) (strlen t) 0 ≡ true)
        ↔ StartsFrom p b t (strlen p) (strlen t) 0
    loop =
        window_loop_lem p b t (strlen p) (strlen t) (table_of p)
          (λ i. All-get_or (λ c. c < 256) t i 0 bytes (omega arith)) (strlen t + 1) 0 (omega arith)
