-- ===== src/Search/Match.antt =====
-- What it means for a pattern to stand in a text, and the longest matched prefix at a position.
use os_2024_ususbuntu_with_s.Prelude.{ℕ, ◌+◌, ◌-◌, ◌<◌, ◌≤◌, ◌≡◌, ◌∙◌, sym, ap, List, arith}
use os_2024_ususbuntu_with_s.Bytes.{at, strlen}

-- The first `k` bytes of `p` stand in `t` from `s` on.
abbrev pub Matches : List ℕ → List ℕ → ℕ → ℕ → Type 0
Matches p t s k = (x : ℕ) → x < k → at p x ≡ at t (s + x)

-- The string `pattern` occurs in the string `text`.
abbrev pub Occurs : List ℕ → List ℕ → Type 0
Occurs pattern text =
    (s : ℕ) × (s + strlen pattern ≤ strlen text) × Matches pattern text s (strlen pattern)

-- `k` is the length of the longest prefix of `p` that ends at `t[i)`, starting no earlier than `lo`.
pub record Longest (p t : List ℕ) (lo i k : ℕ) : Type 0 where
  pub start : ℕ
  pub ends : start + k ≡ i
  pub late : lo ≤ start
  pub matched : Matches p t start k
  pub longest : (s j : ℕ) → lo ≤ s → s + j ≡ i → Matches p t s j → j ≤ k

pub Matches-shift :
    (p t : List ℕ) (s r j k : ℕ)
    → r + k ≡ j
    → Matches p t s j
    → Matches p p r k
    → Matches p t (s + r) k
Matches-shift p t s r j k e f g x h = g x h ∙ f (r + x) (omega arith) ∙ ap (at t) (omega arith)

-- Two prefixes that end at one place: the shorter one is a border of the longer.
pub Matches-border :
    (p t : List ℕ) (s r j k : ℕ)
    → s + j ≡ r + k
    → k < j
    → Matches p t s j
    → Matches p t r k
    → Matches p p (j - k) k
Matches-border p t s r j k e lt f g x h =
    g x h ∙ ap (at t) (omega arith) ∙ sym (f (j - k + x) (omega arith))
