-- ===== src/Search/Agree.antt =====
-- The two searches of src/fat32.c compared.
use os_2024_ususbuntu_with_s.Prelude.{ℕ, ◌<◌, ◌≡◌, Bool, true, false, List, All, refl, sym}
use os_2024_ususbuntu_with_s.Bytes.{strlen}
use os_2024_ususbuntu_with_s.Search.{knuth_morris_pratt, boyer_moore}
use os_2024_ususbuntu_with_s.Search.Kmp.{knuth_morris_pratt-Occurs}
use os_2024_ususbuntu_with_s.Search.Bm.{boyer_moore-Occurs}

Bool-iff : (a b : Bool) → (a ≡ true → b ≡ true) → (b ≡ true → a ≡ true) → a ≡ b
Bool-iff true b f g = sym (f refl)
Bool-iff false true f g = g refl
Bool-iff false false f g = refl

-- For a pattern that is not empty and a text of bytes, the two searches return the same.
pub knuth_morris_pratt-boyer_moore :
    (pattern text : List ℕ)
    → 0 < strlen pattern
    → All (λ c. c < 256) text
    → knuth_morris_pratt pattern text ≡ boyer_moore pattern text
knuth_morris_pratt-boyer_moore p t pos bytes =
    Bool-iff (knuth_morris_pratt p t) (boyer_moore p t)
      (λ e. (boyer_moore-Occurs p t bytes).1 ((knuth_morris_pratt-Occurs p t pos).0 e))
      (λ e. (knuth_morris_pratt-Occurs p t pos).1 ((boyer_moore-Occurs p t bytes).0 e))
