-- ===== src/Shell/Buffer.antt =====
-- The buffer of the prompt's text in src/user-shell.c, whose size no call of `cd` changes.
use os_2024_ususbuntu_with_s.Prelude.{
  ℕ, zero, suc, ◌≡◌, refl, ◌∙◌, true, false, List, [], ◌∷◌, Option, none, some, if◌then◌else◌,
  length, set, Bool, Bool-cases, ◌+◌, ◌%◌, ◌||◌, not, leb, subst, take, length-set, inl, inr, ◌==◌,
}
use os_2024_ususbuntu_with_s.Bytes.{at}
use os_2024_ususbuntu_with_s.Fat32.Driver.{DriverState}
use os_2024_ususbuntu_with_s.Shell.{
  Shell, is_include, cd, cd_child, cd_parent, cut_loop, append_loop, left, leave, entered_dir,
  enter, shown, with_driver,
}

-- The prompt's buffer keeps its size.
abbrev pub SizedIn : ℕ → Option (DriverState × Shell) → Type 0
SizedIn n none = Unit
SizedIn n (some (d, s)) = length s.current_dir ≡ n

pub record Sized (n : ℕ) (o : Option (DriverState × Shell)) : Type 0 where
  pub sized : SizedIn n o

pub Sized-none : {n : ℕ} → Sized n none
Sized-none = record { sized = tt }

pub Sized-some :
    {n : ℕ} (d : DriverState) (s : Shell) → length s.current_dir ≡ n → Sized n (some (d, s))
Sized-some d s h = record { sized = h }

Sized-if :
    {n : ℕ} (b : Bool) {x y : Option (DriverState × Shell)}
    → Sized n x
    → Sized n y
    → Sized n (if b then x else y)
Sized-if true h k = h
Sized-if false h k = k

length-cut_loop : (fuel : ℕ) (dir : List ℕ) (i : ℕ) → length (cut_loop fuel dir i).0 ≡ length dir
unfolding cut_loop
length-cut_loop zero dir i = refl
length-cut_loop (suc fuel) dir i = elim (Bool-cases (at dir i == b'/')) [
  | inl e ↦ rw e refl
  | inr e ↦ rw e (length-cut_loop fuel (set dir i 0) ((i + 255) % 256) ∙ length-set dir i 0)
]

length-append_loop : (name dir : List ℕ) (i : ℕ) → length (append_loop name dir i).0 ≡ length dir
unfolding append_loop
length-append_loop [] dir i = refl
length-append_loop (c ∷ name) dir i =
    length-append_loop name (set dir i c) ((i + 1) % 256) ∙ length-set dir i c

left-Sized : (d : DriverState) (s : Shell) → Sized (length s.current_dir) (with_driver d (left s))
unfolding left leave
left-Sized d s =
    let i = (s.currentdirlen + 254) % 256 in
    let r = cut_loop 256 s.current_dir i in
    elim (Bool-cases (leb 255 i || not (is_include (take (i + 1) s.current_dir) b'/'))) [
      | inl e ↦ rw e Sized-none
      | inr e ↦
          rw e
            (Sized-some d (leave s) (length-set r.0 r.1 b'/' ∙ length-cut_loop 256 s.current_dir i))
    ]

entered_dir-Sized :
    (d : DriverState) (s : Shell) → Sized (length s.current_dir) (with_driver d (entered_dir s))
unfolding entered_dir enter
entered_dir-Sized d s =
    let r = append_loop (shown s) s.current_dir s.currentdirlen in
    elim (Bool-cases (leb 255 (s.currentdirlen + length (shown s)))) [
      | inl e ↦ rw e Sized-none
      | inr e ↦ rw e (
          Sized-some d (enter s)
            (length-set r.0 r.1 b'/' ∙ length-append_loop (shown s) s.current_dir s.currentdirlen))
    ]

cd-Sized : (d : DriverState) (s : Shell) (c : List ℕ) → Sized (length s.current_dir) (cd d s c)
unfolding cd cd_parent cd_child
cd-Sized d s c =
    Sized-if _ (Sized-if _ (Sized-some d s refl) (left-Sized d _))
      (Sized-if _ Sized-none (Sized-if _ (entered_dir-Sized _ _) (Sized-some _ _ refl)))

pub length-cd :
    (d : DriverState) (s : Shell) (c : List ℕ) (d' : DriverState) (s' : Shell)
    → cd d s c ≡ some (d', s')
    → length s'.current_dir ≡ length s.current_dir
length-cd d s c d' s' e = (subst (Sized (length s.current_dir)) e (cd-Sized d s c)).sized
