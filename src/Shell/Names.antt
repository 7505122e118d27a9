-- ===== src/Shell/Names.antt =====
-- The shell's changes of a text in its place, and the last name of a path: `remove_newline`,
-- `remove_space`, `remove_petik` and `get_last_name` of src/user-shell.c.
use os_2024_ususbuntu_with_s.Prelude.{
  ℕ, zero, suc, ◌+◌, ◌-◌, ◌<◌, ◌≡◌, ◌≢◌, refl, sym, ap, ◌∙◌, false, List, [], ◌∷◌, ◌++◌, arith,
  if◌then◌else◌, ◌==◌, inl, inr, Bool-cases, ==-false, ==-true, ==_iff, length, set, take, drop,
  length-append, take-append_left, get_or-append_self,
}
use os_2024_ususbuntu_with_s.Bytes.{at}
use os_2024_ususbuntu_with_s.Shell.{is_include}

-- The text ends at its first newline.
unfoldable pub remove_newline : List ℕ → List ℕ
remove_newline [] = []
remove_newline (c ∷ str) = let rest = remove_newline str in if c == 10 then [] else c ∷ rest

-- The loops of `remove_space` and `remove_petik`, with the rounds that are left: the character at
-- `i` is skipped or moved to the front by `shift`.
unfoldable pub shift_loop : ℕ → ℕ → ℕ → ℕ → List ℕ → List ℕ × ℕ
shift_loop by zero i shift str = (str, shift)
shift_loop by (suc rounds) i shift str =
    let (str', shift') =
      if at str i == by then (str, shift + 1) else (set str (i - shift) (at str i), shift) in
    shift_loop by rounds (suc i) shift' str'

-- `str[len - shift] = '\0'`
unfoldable pub remove_char : ℕ → List ℕ → List ℕ
remove_char by str =
    let (str', shift) = shift_loop by (length str) 0 0 str in take (length str - shift) str'

unfoldable pub remove_space : List ℕ → List ℕ
remove_space str = remove_char 32 str

unfoldable pub remove_petik : List ℕ → List ℕ
remove_petik str = remove_char 34 str

-- The loop back to the last slash: `idx` behind its last `idx++`, from the value before.
unfoldable pub last_loop : List ℕ → ℕ → ℕ
last_loop path zero = 0
last_loop path (suc idx) =
    let before = last_loop path idx in if at path idx == 47 then suc idx else before

unfoldable pub get_last_name : List ℕ → List ℕ
get_last_name path = drop (last_loop path (length path)) path

-- The characters of a text other than `by`.
pub without : ℕ → List ℕ → List ℕ
without by [] = []
without by (c ∷ str) = if c == by then without by str else c ∷ without by str

snoc_append : (xs ys : List ℕ) (x : ℕ) → (xs ++ (x ∷ [])) ++ ys ≡ xs ++ (x ∷ ys)
snoc_append [] ys x = refl
snoc_append (y ∷ xs) ys x = ap (λ t. y ∷ t) (snoc_append xs ys x)

append_nil : (xs : List ℕ) → xs ++ [] ≡ xs
append_nil [] = refl
append_nil (x ∷ xs) = ap (λ t. x ∷ t) (append_nil xs)

at-append :
    (xs ys zs : List ℕ) (x i : ℕ) → i ≡ length xs + length ys → at (xs ++ (ys ++ (x ∷ zs))) i ≡ x
at-append [] ys zs x i h = get_or-append_self ys zs x i 0 (omega (arith, h))
at-append (y ∷ xs) ys zs x zero h = absurd (omega (arith, h))
at-append (y ∷ xs) ys zs x (suc i) h = at-append xs ys zs x i (omega (arith, h))

set-append : (xs ys : List ℕ) (y x : ℕ) → set (xs ++ (y ∷ ys)) (length xs) x ≡ xs ++ (x ∷ ys)
set-append [] ys y x = refl
set-append (z ∷ xs) ys y x = ap (λ t. z ∷ t) (set-append xs ys y x)

-- The characters that were skipped, after one that is moved in front of them.
turned : List ℕ → ℕ → List ℕ
turned [] x = []
turned (y ∷ ys) x = ys ++ (x ∷ [])

length-turned : (ys : List ℕ) (x : ℕ) → length (turned ys x) ≡ length ys
unfolding turned
length-turned [] x = refl
length-turned (y ∷ ys) x = omega (arith, length-append ys (x ∷ []))

set-turned :
    (xs ys zs : List ℕ) (x : ℕ)
    → set (xs ++ (ys ++ (x ∷ zs))) (length xs) x ≡ (xs ++ (x ∷ [])) ++ (turned ys x ++ zs)
unfolding turned
set-turned xs [] zs x = set-append xs zs x x ∙ sym (snoc_append xs zs x)
set-turned xs (y ∷ ys) zs x =
    set-append xs (ys ++ (x ∷ zs)) y x
    ∙ ap (λ t. xs ++ (x ∷ t)) (sym (snoc_append ys zs x))
    ∙ sym (snoc_append xs ((ys ++ (x ∷ [])) ++ zs) x)

-- The text that a loop over a text of `n` characters leaves.
abbrev shortened : ℕ → List ℕ × ℕ → List ℕ
shortened n (str, shift) = take (n - shift) str

-- With `xs` moved to the front and `ys` behind it, the loop keeps the rest without `by`.
shift_loop-shortened :
    (by : ℕ) (zs xs ys str : List ℕ) (i shift n : ℕ)
    → i ≡ length xs + length ys
    → shift ≡ length ys
    → n ≡ i + length zs
    → str ≡ xs ++ (ys ++ zs)
    → shortened n (shift_loop by (length zs) i shift str) ≡ xs ++ without by zs
unfolding shift_loop without
shift_loop-shortened by [] xs ys str i shift n p q r e =
    ap (λ k. take k str) (omega (arith, p, q, r))
    ∙ ap (take (length xs)) e
    ∙ take-append_left (length xs) xs (ys ++ []) refl
    ∙ sym (append_nil xs)
shift_loop-shortened by (x ∷ zs) xs ys str i shift n p q r e =
    let here : at str i ≡ x = ap (λ t. at t i) e ∙ at-append xs ys zs x i p in
    elim (Bool-cases (x == by)) [
      | inl h ↦
          rw (shift_loop, here, h)
            (shift_loop-shortened by zs xs (ys ++ (x ∷ [])) str (suc i) (shift + 1) n
              (omega (arith, p, length-append ys (x ∷ [])))
              (omega (arith, q, length-append ys (x ∷ []))) (omega (arith, r))
              (e ∙ ap (λ t. xs ++ t) (sym (snoc_append ys zs x))))
      | inr h ↦
          rw (shift_loop, here, h)
            (shift_loop-shortened by zs (xs ++ (x ∷ [])) (turned ys x) (set str (i - shift) x)
                (suc i) shift n (omega (arith, p, length-append xs (x ∷ []), length-turned ys x))
                (omega (arith, q, length-turned ys x)) (omega (arith, r))
                (ap (λ k. set str k x) (omega (arith, p, q))
                  ∙ ap (λ t. set t (length xs) x) e
                  ∙ set-turned xs ys zs x)
              ∙ snoc_append xs (without by zs) x)
    ]

remove_char-without : (by : ℕ) (str : List ℕ) → remove_char by str ≡ without by str
unfolding remove_char
remove_char-without by str =
    shift_loop-shortened by str [] [] str 0 0 (length str) refl refl (omega arith) refl

without-without : (a b : ℕ) (str : List ℕ) → without a (without b str) ≡ without b (without a str)
unfolding without
without-without a b [] = refl
without-without a b (c ∷ str) = elim (Bool-cases (c == a)) [
  | inl p ↦ elim (Bool-cases (c == b)) [
    | inl q ↦ rw (p, q) (without-without a b str)
    | inr q ↦ rw (p, q, p) (without-without a b str)
  ]
  | inr p ↦ elim (Bool-cases (c == b)) [
    | inl q ↦ rw (p, q) (without-without a b str)
    | inr q ↦ rw (p, q, p) (ap (λ t. c ∷ t) (without-without a b str))
  ]
]

-- Removing the spaces of a text in its place and then the quotes leaves its characters other than
-- those two, in their order, and the other order of the two removals leaves the same text.
pub remove_petik-remove_space :
    (str : List ℕ)
    → (remove_petik (remove_space str) ≡ without 34 (without 32 str))
      × (remove_petik (remove_space str) ≡ remove_space (remove_petik str))
unfolding remove_petik remove_space
remove_petik-remove_space str =
    let first : remove_char 34 (remove_char 32 str) ≡ without 34 (without 32 str) =
      remove_char-without 34 (remove_char 32 str) ∙ ap (without 34) (remove_char-without 32 str) in
    let other : remove_char 32 (remove_char 34 str) ≡ without 32 (without 34 str) =
      remove_char-without 32 (remove_char 34 str) ∙ ap (without 32) (remove_char-without 34 str) in
    (first, first ∙ without-without 34 32 str ∙ sym other)

-- In a path without a slash the loop runs to the front.
last_loop-none :
    (path : List ℕ) (idx : ℕ) → ((k : ℕ) → k < idx → at path k ≢ 47) → last_loop path idx ≡ 0
unfolding last_loop
last_loop-none path zero h = refl
last_loop-none path (suc idx) h = rw (
  ==-false (at path idx) 47 (h idx (omega arith)),
  last_loop-none path idx (λ k l. h k (omega (arith, l))),
)

-- It stops behind a slash that no other one follows.
last_loop-slash :
    (path : List ℕ) (n idx : ℕ)
    → at path n ≡ 47
    → n < idx
    → ((k : ℕ) → n < k → k < idx → at path k ≢ 47)
    → last_loop path idx ≡ suc n
unfolding last_loop
last_loop-slash path n zero e l h = absurd (omega arith)
last_loop-slash path n (suc idx) e l h = elim (Bool-cases (idx == n)) [
  | inl p ↦
      let q : idx ≡ n = (==_iff idx n).0 p in
      rw (==-true (at path idx) 47 (ap (at path) q ∙ e)) (ap suc q)
  | inr p ↦
      let q : n < idx = ground (arith, l, p) in
      rw (==-false (at path idx) 47 (h idx q (omega arith)))
        (last_loop-slash path n idx e q (λ k a b. h k a (omega (arith, b))))
]

is_include-at :
    (name : List ℕ) (k : ℕ) → is_include name 47 ≡ false → k < length name → at name k ≢ 47
unfolding is_include
is_include-at [] k h l = absurd (omega arith)
is_include-at (c ∷ name) zero h l = ground arith
is_include-at (c ∷ name) (suc k) h l = ground (arith, is_include-at name k)

behind_slash :
    (path name : List ℕ) (k : ℕ)
    → is_include name 47 ≡ false
    → length path < k
    → k < suc (length path + length name)
    → at (path ++ (47 ∷ name)) k ≢ 47
behind_slash path name zero h a b = absurd (omega arith)
behind_slash [] name (suc k) h a b = is_include-at name k h (omega arith)
behind_slash (c ∷ path) name (suc k) h a b = behind_slash path name k h (omega arith) (omega arith)

drop-behind : (path name : List ℕ) → drop (suc (length path)) (path ++ (47 ∷ name)) ≡ name
drop-behind [] name = refl
drop-behind (c ∷ path) name = drop-behind path name

-- For a name without a slash, the last name of a path that ends in a slash and that name is the
-- name, and the last name of the name alone is the name itself.
pub get_last_name_lem :
    (path name : List ℕ)
    → is_include name 47 ≡ false
    → (get_last_name (path ++ (47 ∷ name)) ≡ name) × (get_last_name name ≡ name)
unfolding get_last_name
get_last_name_lem path name h =
    let size : length (path ++ (47 ∷ name)) ≡ suc (length path + length name) =
      omega (arith, length-append path (47 ∷ name)) in
    let start : last_loop (path ++ (47 ∷ name)) (length (path ++ (47 ∷ name))) ≡ suc (length path) =
      last_loop-slash (path ++ (47 ∷ name)) (length path) (length (path ++ (47 ∷ name)))
        (get_or-append_self path name 47 (length path) 0 refl) (omega (arith, size))
        (λ k a b. behind_slash path name k h a (omega (arith, b, size))) in
    (
      ap (λ k. drop k (path ++ (47 ∷ name))) start ∙ drop-behind path name,
      ap (λ k. drop k name) (last_loop-none name (length name) (λ k l. is_include-at name k h l)),
    )
