-- ===== src/Shell/Split.antt =====
-- The text functions of src/user-shell.c.
use os_2024_ususbuntu_with_s.Prelude.{
  ℕ, suc, ◌≡◌, refl, sym, ap, ◌∙◌, true, false, List, [], ◌∷◌, ◌++◌, ◌==◌, length, Bool-cases, inl,
  inr, ==_iff, ◌⊎◌, subst,
}
use os_2024_ususbuntu_with_s.Shell.{split_loop, split_by_first, is_include, strlen_before_char}

-- A text split at the first `by`, if it has one.
pub record IsSplit (pstr : List ℕ) (by : ℕ) (result rest : List ℕ) : Type 0 where
  pub first : is_include result by ≡ false
  pub joined :
      ((is_include pstr by ≡ true) × (pstr ≡ result ++ (by ∷ rest)))
      ⊎ ((is_include pstr by ≡ false) × (pstr ≡ result) × (rest ≡ []))
  pub sized : strlen_before_char pstr by ≡ length result

pub split-cons :
    (c : ℕ) (pstr : List ℕ) (by : ℕ)
    → (c == by) ≡ false
    → split_by_first (c ∷ pstr) by ≡ (c ∷ (split_by_first pstr by).0, (split_by_first pstr by).1)
unfolding split_by_first split_loop
split-cons c pstr by e = rw (split_loop, e) refl

pub split-stop :
    (c : ℕ) (pstr : List ℕ) (by : ℕ) → (c == by) ≡ true → split_by_first (c ∷ pstr) by ≡ ([], pstr)
unfolding split_by_first split_loop
split-stop c pstr by e = rw (split_loop, e) refl

module _ (c : ℕ) (pstr : List ℕ) (by : ℕ) where
  pub is_include-stop : (c == by) ≡ true → is_include (c ∷ pstr) by ≡ true
  unfolding is_include
  is_include-stop e = rw e refl

  pub is_include-step : (c == by) ≡ false → is_include (c ∷ pstr) by ≡ is_include pstr by
  unfolding is_include
  is_include-step e = rw e refl

  strlen_before_char-stop : (c == by) ≡ true → strlen_before_char (c ∷ pstr) by ≡ 0
  unfolding strlen_before_char
  strlen_before_char-stop e = rw e refl

  strlen_before_char-step :
      (c == by) ≡ false → strlen_before_char (c ∷ pstr) by ≡ suc (strlen_before_char pstr by)
  unfolding strlen_before_char
  strlen_before_char-step e = rw e refl

step-IsSplit :
    (c : ℕ) (pstr : List ℕ) (by : ℕ) (result rest : List ℕ)
    → (c == by) ≡ false
    → IsSplit pstr by result rest
    → IsSplit (c ∷ pstr) by (c ∷ result) rest
step-IsSplit c pstr by result rest e s = record {
  first = is_include-step c result by e ∙ s.first;
  joined = elim s.joined [
    | inl (has, eq) ↦ inl (is_include-step c pstr by e ∙ has, ap (λ l. c ∷ l) eq)
    | inr (has, eq, none) ↦ inr (is_include-step c pstr by e ∙ has, ap (λ l. c ∷ l) eq, none)
  ];
  sized = strlen_before_char-step c pstr by e ∙ ap suc s.sized;
}

-- Splitting a text at a character gives the part before its first occurrence, which does not
-- include it, and the part behind it, or the whole text and nothing when is_include finds none;
-- the first part has as many characters as strlen_before_char counts.
pub split_by_first-IsSplit :
    (pstr : List ℕ) (by : ℕ) → IsSplit pstr by (split_by_first pstr by).0 (split_by_first pstr by).1
unfolding split_by_first split_loop is_include strlen_before_char
split_by_first-IsSplit [] by = record {
  first = refl;
  joined = inr (refl, refl, refl);
  sized = refl;
}
split_by_first-IsSplit (c ∷ pstr) by = elim (Bool-cases (c == by)) [
  | inl e ↦
      subst (λ r. IsSplit (c ∷ pstr) by r.0 r.1) (sym (split-stop c pstr by e))
        (record {
          first = refl;
          joined = inl (is_include-stop c pstr by e, ap (λ x. x ∷ pstr) ((==_iff c by).0 e));
          sized = strlen_before_char-stop c pstr by e;
        })
  | inr e ↦
      subst (λ r. IsSplit (c ∷ pstr) by r.0 r.1) (sym (split-cons c pstr by e))
        (step-IsSplit c pstr by (split_by_first pstr by).0 (split_by_first pstr by).1 e
          (split_by_first-IsSplit pstr by))
]
