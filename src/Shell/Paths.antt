-- ===== src/Shell/Paths.antt =====
-- Paths with slashes in src/user-shell.c: the loop of `main` that gives a path to `cd`, and
-- `search_cluster_resolve_path`.
use os_2024_ususbuntu_with_s.Prelude.{
  ℕ, zero, suc, ◌<◌, ◌≡◌, refl, sym, ap, ◌∙◌, true, false, List, [], ◌∷◌, ◌++◌, Option, none, some,
  arith, if◌then◌else◌, length, length-append, set, Bool-cases, Option-cases, ◌||◌, leb, inl, inr,
  ◌==◌, All,
}
use mathlib.Core.Option
use os_2024_ususbuntu_with_s.Bytes.{memcpy, strlen}
use os_2024_ususbuntu_with_s.Fat32.Driver.{DriverState}
use os_2024_ususbuntu_with_s.Shell.Split.{split-cons, split-stop, is_include-stop, is_include-step}
use os_2024_ususbuntu_with_s.Shell.{Shell, split_by_first, is_include, cd}

-- The rounds of the loop in which the path has a slash, and the path that is left.
unfoldable pub walk : ℕ → DriverState → Shell → List ℕ → Option (DriverState × Shell × List ℕ)
walk zero d s path = none
walk (suc fuel) d s path =
    let (res, rest) = split_by_first path b'/' in
    let after : Option (DriverState × Shell × List ℕ) = elim (cd d s res) [
      | none ↦ none
      | some (d', s') ↦ walk fuel d' s' rest
    ] in
    if is_include path b'/' then after else some (d, s, path)

abbrev pub cd_last : Option (DriverState × Shell × List ℕ) → Option (DriverState × Shell)
cd_last none = none
cd_last (some (d, s, name)) = cd d s name

-- The loop of `main` on the argument of `cd`.
unfoldable pub cd_path : DriverState → Shell → List ℕ → Option (DriverState × Shell)
cd_path d s argument = cd_last (walk (suc (length argument)) d s argument)

-- The restored text, length and cluster.
unfoldable pub restored : Shell → Shell → ℕ → Shell
restored initial s cluster_number = record s {
  current_dir =
      set (memcpy s.current_dir initial.current_dir (strlen initial.current_dir))
        (strlen initial.current_dir) 0;
  currentdirlen = initial.currentdirlen;
  cwd_cluster_number = cluster_number;
}

-- `initial_dir` and `initial_path` have room for 254 characters and the closing 0.
unfoldable pub search_cluster_resolve_path :
    DriverState → Shell → ℕ → List ℕ → Option (ℕ × DriverState × Shell)
search_cluster_resolve_path d s cluster_number path =
    if leb 255 (strlen s.current_dir) || leb 255 (length path)
    then none
    else Option.map (λ (d', s', name). (s'.cwd_cluster_number, d', restored s s' cluster_number))
        (walk (suc (length path)) d s path)

walk-stop :
    (fuel : ℕ) (d : DriverState) (s : Shell) (path : List ℕ)
    → is_include path b'/' ≡ false
    → walk (suc fuel) d s path ≡ some (d, s, path)
unfolding walk
walk-stop fuel d s path h = rw h refl

abbrev walk_on : ℕ → List ℕ → Option (DriverState × Shell) → Option (DriverState × Shell × List ℕ)
walk_on fuel rest none = none
walk_on fuel rest (some (d, s)) = walk fuel d s rest

walk-step :
    (fuel : ℕ) (d : DriverState) (s : Shell) (path : List ℕ)
    → is_include path b'/' ≡ true
    → walk (suc fuel) d s path
      ≡ walk_on fuel (split_by_first path b'/').1 (cd d s (split_by_first path b'/').0)
unfolding walk
walk-step fuel d s path h = elim (Option-cases (cd d s (split_by_first path b'/').0)) [
  | inl e ↦ rw (h, e) refl
  | inr ((d', s'), e) ↦ rw (h, e) refl
]

-- A path of directory names and a last name, and the calls of `cd` for the directories.
unfoldable pub join : List (List ℕ) → List ℕ → List ℕ
join [] name = name
join (c ∷ directories) name = c ++ (b'/' ∷ join directories name)

unfoldable pub cds : DriverState → Shell → List (List ℕ) → Option (DriverState × Shell)
cds d s [] = some (d, s)
cds d s (c ∷ directories) = elim (cd d s c) [ none ↦ none | some (d', s') ↦ cds d' s' directories ]

abbrev pub IsName : List ℕ → Type 0
IsName c = is_include c b'/' ≡ false

split-joined :
    (c rest : List ℕ)
    → IsName c
    → (is_include (c ++ (b'/' ∷ rest)) b'/' ≡ true)
      × (split_by_first (c ++ (b'/' ∷ rest)) b'/' ≡ (c, rest))
split-joined [] rest h = (is_include-stop b'/' rest b'/' refl, split-stop b'/' rest b'/' refl)
split-joined (x ∷ c) rest h = elim (Bool-cases (x == b'/')) [
  | inl e ↦ cc (is_include-stop x c b'/' e, h)
  | inr e ↦
      let ih = split-joined c rest (sym (is_include-step x c b'/' e) ∙ h) in
      (
        is_include-step x (c ++ (b'/' ∷ rest)) b'/' e ∙ ih.0,
        split-cons x (c ++ (b'/' ∷ rest)) b'/' e ∙ ap (λ r. (x ∷ r.0, r.1)) ih.1,
      )
]

-- What the calls of `cd` lead to, with the name that is left.
abbrev pub with_name : List ℕ → Option (DriverState × Shell) → Option (DriverState × Shell × List ℕ)
with_name name none = none
with_name name (some (d, s)) = some (d, s, name)

pub walk-join :
    (fuel : ℕ) (d : DriverState) (s : Shell) (directories : List (List ℕ)) (name : List ℕ)
    → All IsName directories
    → IsName name
    → length (join directories name) < fuel
    → walk fuel d s (join directories name) ≡ with_name name (cds d s directories)
unfolding join cds
walk-join zero d s directories name h k l = absurd (omega arith)
walk-join (suc fuel) d s [] name h k l = walk-stop fuel d s name k
walk-join (suc fuel) d s (c ∷ directories) name h k l =
    let rest = join directories name in
    let p = split-joined c rest h.0 in
    walk-step fuel d s (c ++ (b'/' ∷ rest)) p.0
    ∙ ap (λ r. walk_on fuel r.1 (cd d s r.0)) p.1
    ∙ elim (Option-cases (cd d s c)) [
      | inl e ↦ rw (cds, e) refl
      | inr ((d', s'), e) ↦
          rw (cds, e)
            (walk-join fuel d' s' directories name h.1 k
              (omega (arith, l, length-append c (b'/' ∷ rest))))
    ]
