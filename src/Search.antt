-- ===== src/Search.antt =====
-- The two string searches of src/fat32.c, `knuth_morris_pratt` and `boyer_moore`.
-- A string is a list of bytes that a 0, or the list's end, closes. An `int` that may be -1 in the
-- source (an entry of `bad_char`, `j` after its loop) is an option, or is counted from one.
pub mod Match
pub mod Prefix
pub mod Kmp
pub mod Bm
pub mod Agree
use os_2024_ususbuntu_with_s.Prelude.{
  ℕ, zero, suc, ◌+◌, ◌-◌, Bool, true, false, ◌&&◌, not, List, [], ◌∷◌, ◌++◌, Option, none, some,
  ltb, leb, ◌==◌, if◌then◌else◌, get_or, set, replicate,
}
use os_2024_ususbuntu_with_s.Bytes.{at, strlen}

-- `while (k > 0 && pattern[k] != c) k = pi[k - 1];` with fuel.
unfoldable pub fall_back : ℕ → List ℕ → List ℕ → ℕ → ℕ → ℕ
fall_back zero pattern pi c k = k
fall_back (suc fuel) pattern pi c k =
    let next = fall_back fuel pattern pi c (at pi (k - 1)) in
    if ltb 0 k && not (at pattern k == c) then next else k

-- That loop, and `if (pattern[k] == c) k++;`. Each round makes `k` smaller, so `k` rounds suffice.
unfoldable pub advance : List ℕ → List ℕ → ℕ → ℕ → ℕ
advance pattern pi c k =
    let k' = fall_back k pattern pi c k in if at pattern k' == c then k' + 1 else k'

-- `for (i = 1; i < m; i++) ...`: the rounds left, `i`, `k` and the table so far, `pi[0..i)`.
unfoldable pub prefix_loop : ℕ → List ℕ → ℕ → ℕ → List ℕ → List ℕ
prefix_loop zero pattern i k pi = pi
prefix_loop (suc rounds) pattern i k pi =
    let k' = advance pattern pi (at pattern i) k in
    prefix_loop rounds pattern (i + 1) k' (pi ++ (k' ∷ []))

-- `for (i = 0; i < n; i++) ...`: the rounds left, `i` and `j`.
unfoldable pub text_loop : ℕ → List ℕ → List ℕ → List ℕ → ℕ → ℕ → ℕ → Bool
text_loop zero pattern pi text m i j = false
text_loop (suc rounds) pattern pi text m i j =
    let j' = advance pattern pi (at text i) j in
    let rest = text_loop rounds pattern pi text m (i + 1) j' in if j' == m then true else rest

unfoldable pub knuth_morris_pratt : List ℕ → List ℕ → Bool
knuth_morris_pratt pattern text =
    if strlen pattern == 0
    then false
    else text_loop (strlen text) pattern (prefix_loop (strlen pattern - 1) pattern 1 0 (0 ∷ []))
        text (strlen pattern) 0 0

-- `for (i = 0; i < m; i++) bad_char[pattern[i]] = i;` on an array of -1.
unfoldable pub last_loop : ℕ → List ℕ → ℕ → List (Option ℕ) → List (Option ℕ)
last_loop zero pattern i bad_char = bad_char
last_loop (suc rounds) pattern i bad_char =
    last_loop rounds pattern (i + 1) (set bad_char (at pattern i) (some i))

-- `while (j >= 0 && pattern[j] == text[s + j]) j--;` from `j`, both given as `j + 1`.
unfoldable pub scan_back : List ℕ → List ℕ → ℕ → ℕ → ℕ
scan_back pattern text s zero = zero
scan_back pattern text s (suc j) =
    let rest = scan_back pattern text s j in if at pattern j == at text (s + j) then rest else suc j

-- `(j - bad > 1) ? j - bad : 1`
unfoldable pub shift : ℕ → Option ℕ → ℕ
shift j none = if ltb 0 j then j + 1 else 1
shift j (some bad) = if ltb (bad + 1) j then j - bad else 1

-- `while (s <= n - m) ...` with fuel; `n - m` is an `int`, so the test is `s + m <= n`.
unfoldable pub window_loop : ℕ → List ℕ → List (Option ℕ) → List ℕ → ℕ → ℕ → ℕ → Bool
window_loop zero pattern bad_char text m n s = false
window_loop (suc fuel) pattern bad_char text m n s =
    let j = scan_back pattern text s m in
    let next =
      window_loop fuel pattern bad_char text m n
        (s + shift (j - 1) (get_or bad_char (at text (s + (j - 1))) none)) in
    if leb (s + m) n then (if j == 0 then true else next) else false

-- `s` grows by at least one in each round, so `n + 1` rounds suffice.
unfoldable pub boyer_moore : List ℕ → List ℕ → Bool
boyer_moore pattern text =
    window_loop (strlen text + 1) pattern
      (last_loop (strlen pattern) pattern 0 (replicate 256 none)) text (strlen pattern)
      (strlen text) 0
