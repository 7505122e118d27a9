-- ===== src/Bytes/Compare.antt =====
-- The laws of `memcmp`, `strlen`, `memcpy` and `memset` on lists of bytes.
use os_2024_ususbuntu_with_s.Prelude.{
  ℕ, zero, suc, ◌<◌, ◌≤◌, ◌≡◌, ◌≢◌, refl, ap, true, List, [], ◌∷◌, arith, length, drop, replicate,
}
use os_2024_ususbuntu_with_s.Bytes.{memcmp, null, minus, plus, is_null, strlen, at, memcpy, memset}

-- `memcmp(s, s, n) == 0`
pub memcmp_self : (s : List ℕ) (n : ℕ) → memcmp s s n ≡ null
unfolding memcmp
memcmp_self s zero = refl
memcmp_self s (suc n) = ground (arith, memcmp_self (drop 1 s) n)

-- On buffers of `n` bytes `memcmp` returns 0 only if they are equal.
pub memcmp-null : (s t : List ℕ) (n : ℕ) → length s ≡ n → length t ≡ n → memcmp s t n ≡ null → s ≡ t
unfolding memcmp
memcmp-null [] [] n h k e = refl
memcmp-null [] (b ∷ t) n h k e = absurd (omega arith)
memcmp-null (a ∷ s) [] n h k e = absurd (omega arith)
memcmp-null (a ∷ s) (b ∷ t) zero h k e = absurd (omega arith)
memcmp-null (a ∷ s) (b ∷ t) (suc n) h k e = ground (arith, memcmp-null s t n)

pub is_null_iff :
    (s t : List ℕ) (n : ℕ) → length s ≡ n → length t ≡ n → is_null (memcmp s t n) ≡ true → s ≡ t
is_null_iff s t n h k e = memcmp-null s t n h k (go (memcmp s t n) e)
  where
    go : (r : _) → is_null r ≡ true → r ≡ null
    go null e = refl
    go minus e = cc
    go plus e = cc

-- No byte before the length is 0, and the byte at the length is.
pub strlen-ne : (s : List ℕ) (i : ℕ) → i < strlen s → at s i ≢ 0
unfolding strlen
strlen-ne [] i h = absurd (omega arith)
strlen-ne (c ∷ s) zero h = ground arith
strlen-ne (c ∷ s) (suc i) h = ground (arith, strlen-ne s i)

pub strlen-zero : (s : List ℕ) → at s (strlen s) ≡ 0
unfolding strlen
strlen-zero [] = refl
strlen-zero (c ∷ s) = ground (arith, strlen-zero s)

pub strlen-le : (s : List ℕ) → strlen s ≤ length s
unfolding strlen
strlen-le [] = omega arith
strlen-le (c ∷ s) = ground (arith, strlen-le s)

-- `memcpy` of as many bytes as both buffers hold is a copy.
pub memcpy_all : (d s : List ℕ) (n : ℕ) → length d ≡ n → length s ≡ n → memcpy d s n ≡ s
unfolding memcpy
memcpy_all [] [] zero h k = refl
memcpy_all [] (b ∷ s) zero h k = absurd (omega arith)
memcpy_all (a ∷ d) s zero h k = absurd (omega arith)
memcpy_all [] s (suc n) h k = absurd (omega arith)
memcpy_all (a ∷ d) [] (suc n) h k = absurd (omega arith)
memcpy_all (a ∷ d) (b ∷ s) (suc n) h k =
    ap (λ t. b ∷ t) (memcpy_all d s n (omega arith) (omega arith))

pub memset_all : (s : List ℕ) (c n : ℕ) → length s ≡ n → memset s c n ≡ replicate n c
unfolding memset
memset_all [] c zero h = refl
memset_all (x ∷ s) c zero h = absurd (omega arith)
memset_all [] c (suc n) h = absurd (omega arith)
memset_all (x ∷ s) c (suc n) h = ap (λ t. c ∷ t) (memset_all s c n (omega arith))
