-- ===== src/Decimal/Text.antt =====
-- `int_to_str` (src/process.c, src/user-shell.c) and `str_to_int` (src/user-shell.c).
use os_2024_ususbuntu_with_s.Prelude.{
  ℕ, zero, suc, ◌+◌, ◌-◌, ◌*◌, ◌/◌, ◌%◌, ◌^◌, ◌<◌, ◌≤◌, ◌≡◌, ◌≢◌, ◌↔◌, refl, sym, ap, ◌∙◌, false,
  List, [], ◌∷◌, ◌++◌, ◌==◌, length, arith, ==-false, subst, ℕ_discrete, lt→ltb, ltb_of_le,
}
use os_2024_ususbuntu_with_s.Prelude.Int.{ℤ, pos, negsuc, to_i32}
use os_2024_ususbuntu_with_s.Decimal.{
  digits_loop, reversed, int_to_str, next_result, result_loop, str_to_int,
}
use os_2024_ususbuntu_with_s.Decimal.Reverse.{rev, reversed-rev, length-rev, rev-snoc}

-- Digits from the last one on, and no fuel.
digits_loop-suc :
    (fuel n : ℕ) → n ≢ 0 → digits_loop (suc fuel) n ≡ (n % 10 + 48) ∷ digits_loop fuel (n / 10)
unfolding digits_loop
digits_loop-suc fuel n h = ground arith

digits_loop-zero : (fuel : ℕ) → digits_loop fuel 0 ≡ []
unfolding digits_loop
digits_loop-zero zero = refl
digits_loop-zero (suc fuel) = refl

-- The characters of a text that are not 0.
abbrev NoZero : List ℕ → Type 0
NoZero [] = Unit
NoZero (c ∷ str) = (c ≢ 0) × NoZero str

NoZero-snoc : (str : List ℕ) (c : ℕ) → NoZero str → c ≢ 0 → NoZero (str ++ (c ∷ []))
NoZero-snoc [] c h k = (k, tt)
NoZero-snoc (d ∷ str) c h k = (h.0, NoZero-snoc str c h.1 k)

result_loop-snoc :
    (str : List ℕ) (c r : ℕ)
    → NoZero str
    → c ≢ 0
    → result_loop (str ++ (c ∷ [])) r ≡ next_result (result_loop str r) c
unfolding result_loop
result_loop-snoc [] c r h k = rw (==-false c 0 k) refl
result_loop-snoc (d ∷ str) c r h k =
    rw (==-false d 0 h.0) (result_loop-snoc str c (next_result r d) h.1 k)

-- The decimal text of a number.
abbrev decimal : ℕ → ℕ → List ℕ
decimal fuel n = rev (digits_loop fuel n)

decimal-NoZero : (fuel n : ℕ) → NoZero (decimal fuel n)
unfolding digits_loop
decimal-NoZero zero n = tt
decimal-NoZero (suc fuel) n = elim (ℕ_discrete n 0) [
  | yes e ↦ subst (λ x. NoZero (decimal (suc fuel) x)) (sym e) tt
  | no ne ↦ subst NoZero (sym (ap rev (digits_loop-suc fuel n ne))) (
      NoZero-snoc (decimal fuel (n / 10)) (n % 10 + 48) (decimal-NoZero fuel (n / 10))
        (omega arith))
]

abbrev pub pow10 : ℕ → ℕ
pow10 zero = 1
pow10 (suc k) = 10 * pow10 k

next_result-digit : (n : ℕ) → n < 2 ^ 32 → next_result (n / 10) (n % 10 + 48) ≡ n
next_result-digit n h = ground arith

pow10_pos : (k : ℕ) → 0 < pow10 k
pow10_pos zero = omega arith
pow10_pos (suc k) = omega (arith, pow10_pos k)

result_loop-decimal :
    (fuel n : ℕ) → n < pow10 fuel → n < 2 ^ 32 → result_loop (decimal fuel n) 0 ≡ n
unfolding digits_loop result_loop
result_loop-decimal zero n h k = omega arith
result_loop-decimal (suc fuel) n h k = elim (ℕ_discrete n 0) [
  | yes e ↦ subst (λ x. result_loop (decimal (suc fuel) x) 0 ≡ x) (sym e) refl
  | no ne ↦
      ap (λ x. result_loop (rev x) 0) (digits_loop-suc fuel n ne)
      ∙ result_loop-snoc (decimal fuel (n / 10)) (n % 10 + 48) 0 (decimal-NoZero fuel (n / 10))
          (omega arith)
      ∙ ap (λ r. next_result r (n % 10 + 48))
          (result_loop-decimal fuel (n / 10) (omega arith) (omega arith))
      ∙ next_result-digit n k
]

-- How long the digits are.
length-more :
    (fuel k n : ℕ)
    → n ≢ 0
    → ((j : ℕ) → (length (digits_loop fuel (n / 10)) ≤ j) ↔ (n / 10 < pow10 j))
    → (suc (length (digits_loop fuel (n / 10))) ≤ k) ↔ (n < pow10 k)
length-more fuel zero n h each = (λ a. absurd (omega arith), λ a. absurd (omega arith))
length-more fuel (suc k) n h each =
    let e = each k in
    (
      λ a. let below = e.0 (omega arith) in omega arith,
      λ a. let few = e.1 (omega arith) in omega arith,
    )

pub length-digits_loop :
    (fuel k n : ℕ) → n < pow10 fuel → (length (digits_loop fuel n) ≤ k) ↔ (n < pow10 k)
unfolding digits_loop
length-digits_loop zero k n h = (λ a. omega (arith, pow10_pos k), λ a. omega arith)
length-digits_loop (suc fuel) k n h = elim (ℕ_discrete n 0) [
  | yes e ↦
      subst (λ x. (length (digits_loop (suc fuel) x) ≤ k) ↔ (x < pow10 k)) (sym e)
        (λ a. pow10_pos k, λ a. omega arith)
  | no ne ↦
      subst (λ ds. (length ds ≤ k) ↔ (n < pow10 k)) (sym (digits_loop-suc fuel n ne))
        (length-more fuel k n ne (λ j. length-digits_loop fuel j (n / 10) (omega arith)))
]

-- The values of an `int`, but for the least.
abbrev pub IsInt : ℤ → Type 0
IsInt (pos n) = n < 2147483648
IsInt (negsuc n) = n < 2147483647

-- The text of a positive int has at most k characters exactly when the int is below 10 to the
-- power k.
pub length-int_to_str :
    (n k : ℕ) → 0 < n → n < 2147483648 → (length (int_to_str (pos n)) ≤ k) ↔ (n < pow10 k)
unfolding int_to_str
length-int_to_str zero k h small = absurd (omega arith)
length-int_to_str (suc n) k h small =
    let l : length (reversed (digits_loop 10 (suc n))) ≡ length (digits_loop 10 (suc n)) =
      ap length (reversed-rev (digits_loop 10 (suc n))) ∙ length-rev (digits_loop 10 (suc n)) in
    rw l (length-digits_loop 10 k (suc n) (omega arith))

-- The characters of a text that are digits.
abbrev IsDigits : List ℕ → Type 0
IsDigits [] = Unit
IsDigits (c ∷ str) = (48 ≤ c) × (c < 58) × IsDigits str

IsDigits-snoc : (str : List ℕ) (c : ℕ) → IsDigits str → 48 ≤ c → c < 58 → IsDigits (str ++ (c ∷ []))
IsDigits-snoc [] c h lo hi = (lo, hi, tt)
IsDigits-snoc (d ∷ str) c h lo hi = (h.0, h.1, IsDigits-snoc str c h.2 lo hi)

decimal-IsDigits : (fuel n : ℕ) → IsDigits (decimal fuel n)
unfolding digits_loop
decimal-IsDigits zero n = tt
decimal-IsDigits (suc fuel) n = elim (ℕ_discrete n 0) [
  | yes e ↦ subst (λ x. IsDigits (decimal (suc fuel) x)) (sym e) tt
  | no ne ↦ subst IsDigits (sym (ap rev (digits_loop-suc fuel n ne))) (
      IsDigits-snoc (decimal fuel (n / 10)) (n % 10 + 48) (decimal-IsDigits fuel (n / 10))
        (omega arith) (omega arith))
]

str_to_int-digits : (str : List ℕ) → IsDigits str → str_to_int str ≡ to_i32 (result_loop str 0)
unfolding str_to_int result_loop
str_to_int-digits [] h = refl
str_to_int-digits (c ∷ str) h =
    let ne : (c == b'-') ≡ false = ==-false c b'-' (λ e. absurd (omega (arith, h.0))) in rw ne refl

to_i32_pos : (n : ℕ) → n < 2147483648 → to_i32 n ≡ pos n
to_i32_pos n h = rw (lt→ltb n 2147483648 h) refl

to_i32_neg : (n : ℕ) → n < 2147483647 → to_i32 ((2 ^ 32 - suc n) % 2 ^ 32) ≡ negsuc n
to_i32_neg n h =
    let e : (2 ^ 32 - suc n) % 2 ^ 32 ≡ 4294967295 - n = omega arith in
    ap to_i32 e ∙ rw (ltb_of_le (4294967295 - n) 2147483648 (omega arith)) (ap negsuc (omega arith))

-- The text that int_to_str makes of an int other than the least is read back by str_to_int as the
-- same int.
pub str_to_int-int_to_str : (i : ℤ) → IsInt i → str_to_int (int_to_str i) ≡ i
unfolding int_to_str str_to_int
str_to_int-int_to_str (pos zero) h = unfold result_loop in refl
str_to_int-int_to_str (pos (suc n)) h =
    ap str_to_int (reversed-rev (digits_loop 10 (suc n)))
    ∙ str_to_int-digits (decimal 10 (suc n)) (decimal-IsDigits 10 (suc n))
    ∙ ap to_i32 (result_loop-decimal 10 (suc n) (omega arith) (omega arith))
    ∙ to_i32_pos (suc n) h
str_to_int-int_to_str (negsuc n) h =
    ap str_to_int (
      reversed-rev (digits_loop 10 (suc n) ++ (b'-' ∷ [])) ∙ rev-snoc (digits_loop 10 (suc n)) b'-')
    ∙ ap (λ r. to_i32 ((2 ^ 32 - r) % 2 ^ 32))
        (result_loop-decimal 10 (suc n) (omega arith) (omega arith))
    ∙ to_i32_neg n h
