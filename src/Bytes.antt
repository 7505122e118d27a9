-- ===== src/Bytes.antt =====
-- src/stdlib/string.c on buffers given as lists of bytes. A list holds the bytes from a pointer on,
-- and a read past its end gives 0. `Bytes/Compare.antt` has the laws of `memcmp` and `strlen`.
pub mod Compare
use os_2024_ususbuntu_with_s.Prelude.{
  ℕ, zero, suc, ◌+◌, Bool, true, false, List, [], ◌∷◌, ltb, ◌==◌, if◌then◌else◌, get_or, drop, not,
}

-- A C `int` that is -1, 0 or 1.
pub data Sign : Type 0 where
  minus null plus : Sign

abbrev pub at : List ℕ → ℕ → ℕ
at buf i = get_or buf i 0

-- The loop compares byte by byte; both pointers move on by one.
unfoldable pub memcmp : List ℕ → List ℕ → ℕ → Sign
memcmp s1 s2 zero = null
memcmp s1 s2 (suc n) =
    let rest = memcmp (drop 1 s1) (drop 1 s2) n in
    if ltb (at s1 0) (at s2 0) then minus else if ltb (at s2 0) (at s1 0) then plus else rest

-- `memcmp(...) == 0`
abbrev pub is_null : Sign → Bool
is_null minus = false
is_null null = true
is_null plus = false

-- `memcmp(...) == 1`
abbrev pub is_plus : Sign → Bool
is_plus minus = false
is_plus null = false
is_plus plus = true

unfoldable pub strlen : List ℕ → ℕ
strlen [] = 0
strlen (c ∷ str) = let rest = strlen str in if c == 0 then 0 else suc rest

-- `memcpy` and `memset` onto the first `n` bytes of a buffer that is as long.
unfoldable pub memcpy : List ℕ → List ℕ → ℕ → List ℕ
memcpy dest src zero = dest
memcpy [] src (suc n) = []
memcpy (d ∷ dest) src (suc n) = at src 0 ∷ memcpy dest (drop 1 src) n

unfoldable pub memset : List ℕ → ℕ → ℕ → List ℕ
memset s c zero = s
memset [] c (suc n) = []
memset (x ∷ s) c (suc n) = c ∷ memset s c n
