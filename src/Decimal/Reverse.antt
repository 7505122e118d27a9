-- ===== src/Decimal/Reverse.antt =====
-- The swapping loop of `int_to_str` (src/process.c).
use os_2024_ususbuntu_with_s.Prelude.{
  ℕ, zero, suc, ◌+◌, ◌-◌, ◌<◌, ◌≤◌, ◌≡◌, ◌≢◌, refl, sym, ap, ◌∙◌, List, [], ◌∷◌, ◌++◌, ltb, set,
  length, arith, get_or-set_self, get_or-set_ne, length-set, list_ext, Bool-cases, inl, inr,
  ℕ_discrete, dec_lt, ltb→lt, ltb-false, length-append, get_or-append_left, get_or-append_self,
}
use os_2024_ususbuntu_with_s.Bytes.{at}
use os_2024_ususbuntu_with_s.Decimal.{swap_loop, reversed}

-- The list from its end.
abbrev pub rev : List ℕ → List ℕ
rev [] = []
rev (x ∷ xs) = rev xs ++ (x ∷ [])

swapped : ℕ → ℕ → List ℕ → List ℕ
swapped start last str = set (set str start (at str last)) last (at str start)

module _ (start last : ℕ) (str : List ℕ) (lt : start < last) (fits : last < length str) where
  length-swapped : length (swapped start last str) ≡ length str
  unfolding swapped
  length-swapped =
      length-set (set str start (at str last)) last (at str start)
      ∙ length-set str start (at str last)

  swapped-last : at (swapped start last str) last ≡ at str start
  unfolding swapped
  swapped-last =
      get_or-set_self (set str start (at str last)) last (at str start) 0
        (omega (arith, length-set str start (at str last)))

  swapped-start : at (swapped start last str) start ≡ at str last
  unfolding swapped
  swapped-start =
      get_or-set_ne (set str start (at str last)) last start (at str start) 0 (omega arith)
      ∙ get_or-set_self str start (at str last) 0 (omega arith)

  swapped-other : (k : ℕ) → k ≢ start → k ≢ last → at (swapped start last str) k ≡ at str k
  unfolding swapped
  swapped-other k a b =
      get_or-set_ne (set str start (at str last)) last k (at str start) 0 (omega arith)
      ∙ get_or-set_ne str start k (at str last) 0 (omega arith)

-- What the loop does between `start` and `last`.
record IsSwapped (start last : ℕ) (str str' : List ℕ) : Type 0 where
  sized : length str' ≡ length str
  inside : (k : ℕ) → start ≤ k → k ≤ last → at str' k ≡ at str (start + last - k)
  below : (k : ℕ) → k < start → at str' k ≡ at str k
  above : (k : ℕ) → last < k → at str' k ≡ at str k

done : (start last : ℕ) (str : List ℕ) → last ≤ start → IsSwapped start last str str
done start last str h = record {
  sized = refl;
  inside = λ k a b. ap (at str) (omega arith);
  below = λ k a. refl;
  above = λ k a. refl;
}

-- One round more.
widen :
    (start last : ℕ) (str : List ℕ)
    → start < last
    → last < length str
    → (r : List ℕ) → IsSwapped (start + 1) (last - 1) (swapped start last str) r
    → IsSwapped start last str r
widen start last str lt fits r s = record {
  sized = s.sized ∙ length-swapped start last str lt fits;
  inside = λ k a b. elim (ℕ_discrete k start) [
    | yes e ↦
        ap (at r) e
        ∙ s.below start (omega arith)
        ∙ swapped-start start last str lt fits
        ∙ ap (at str) (omega (arith, e))
    | no ns ↦ elim (ℕ_discrete k last) [
      | yes e ↦
          ap (at r) e
          ∙ s.above last (omega arith)
          ∙ swapped-last start last str lt fits
          ∙ ap (at str) (omega (arith, e))
      | no nl ↦
          s.inside k (omega arith) (omega arith)
          ∙ swapped-other start last str lt fits (start + 1 + (last - 1) - k) (omega arith)
              (omega arith)
          ∙ ap (at str) (omega arith)
    ]
  ];
  below = λ k a.
      s.below k (omega arith) ∙ swapped-other start last str lt fits k (omega arith) (omega arith);
  above = λ k a.
      s.above k (omega arith) ∙ swapped-other start last str lt fits k (omega arith) (omega arith);
}

swap_loop-IsSwapped :
    (fuel start last : ℕ) (str : List ℕ)
    → last < start + fuel + 1
    → last < length str
    → IsSwapped start last str (swap_loop fuel start last str)
unfolding swap_loop swapped
swap_loop-IsSwapped zero start last str enough fits = done start last str (omega arith)
swap_loop-IsSwapped (suc fuel) start last str enough fits = elim (Bool-cases (ltb start last)) [
  | inr e ↦ rw e (done start last str (ltb-false start last e))
  | inl e ↦
      let lt : start < last = ltb→lt start last e in
      rw e (
        widen start last str lt fits
          (swap_loop fuel (start + 1) (last - 1) (swapped start last str))
          (swap_loop-IsSwapped fuel (start + 1) (last - 1) (swapped start last str) (omega arith)
            (omega (arith, length-swapped start last str lt fits))))
]

pub length-rev : (str : List ℕ) → length (rev str) ≡ length str
length-rev [] = refl
length-rev (c ∷ str) = omega (arith, length-append (rev str) (c ∷ []), length-rev str)

rev-at : (str : List ℕ) (k : ℕ) → k < length str → at (rev str) k ≡ at str (length str - 1 - k)
rev-at [] k h = absurd (omega arith)
rev-at (c ∷ str) k h = elim (ℕ_discrete k (length str)) [
  | yes e ↦
      get_or-append_self (rev str) [] c k 0 (omega (arith, e, length-rev str))
      ∙ ap (at (c ∷ str)) {x = 0} {y = length (c ∷ str) - 1 - k} (omega (arith, e))
  | no ne ↦
      get_or-append_left (rev str) (c ∷ []) k 0 (omega (arith, length-rev str))
      ∙ rev-at str k (omega arith)
      ∙ ap (at (c ∷ str)) {x = suc (length str - 1 - k)} {y = length (c ∷ str) - 1 - k}
          (omega arith)
]

at_past : (str : List ℕ) (k : ℕ) → length str ≤ k → at str k ≡ 0
at_past [] k h = refl
at_past (c ∷ str) zero h = absurd (omega arith)
at_past (c ∷ str) (suc k) h = at_past str k (omega arith)

pub reversed-rev : (str : List ℕ) → reversed str ≡ rev str
unfolding reversed swap_loop
reversed-rev [] = refl
reversed-rev (c ∷ str) =
    let s : IsSwapped 0 (length (c ∷ str) - 1) (c ∷ str) (reversed (c ∷ str)) =
      swap_loop-IsSwapped (suc (length str)) 0 (length (c ∷ str) - 1) (c ∷ str) (omega arith)
        (omega arith) in
    list_ext (reversed (c ∷ str)) (rev (c ∷ str)) 0 (s.sized ∙ sym (length-rev (c ∷ str))) (λ k.
      elim (dec_lt k (suc (length str))) [
        | yes h ↦
            s.inside k (omega arith) (omega arith)
            ∙ ap (at (c ∷ str)) (omega arith)
            ∙ sym (rev-at (c ∷ str) k h)
        | no h ↦
            at_past (reversed (c ∷ str)) k (omega (arith, s.sized, h))
            ∙ sym (at_past (rev (c ∷ str)) k (omega (arith, length-rev (c ∷ str), h)))
      ])

pub rev-snoc : (str : List ℕ) (c : ℕ) → rev (str ++ (c ∷ [])) ≡ c ∷ rev str
rev-snoc [] c = refl
rev-snoc (d ∷ str) c = ap (λ l. l ++ (d ∷ [])) (rev-snoc str c)
