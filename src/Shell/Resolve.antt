-- ===== src/Shell/Resolve.antt =====
-- What a path leads to in src/user-shell.c: the loop of `main` over `cd`, and
-- `search_cluster_resolve_path`, which restores the prompt.
use os_2024_ususbuntu_with_s.Prelude.{
  ℕ, zero, suc, ◌<◌, ◌≡◌, refl, ap, ◌∙◌, List, [], ◌∷◌, Option, none, some, arith, length,
  Option-cases, subst, length-set, ◌≤◌, drop, get_or-set_ne, get_or-set_self, leb_of_lt, inl, inr,
  All,
}
use mathlib.Core.Option
use os_2024_ususbuntu_with_s.Bytes.{at, memcpy, strlen}
use os_2024_ususbuntu_with_s.Fat32.Driver.{DriverState}
use os_2024_ususbuntu_with_s.Shell.Buffer.{Sized, Sized-none, Sized-some, length-cd}
use os_2024_ususbuntu_with_s.Shell.{Shell, cd}
use os_2024_ususbuntu_with_s.Shell.Paths.{
  cd_last, cd_path, restored, search_cluster_resolve_path, join, cds, IsName, with_name, walk-join,
}

cds-Sized :
    (d : DriverState) (s : Shell) (directories : List (List ℕ))
    → Sized (length s.current_dir) (cds d s directories)
unfolding cds
cds-Sized d s [] = Sized-some d s refl
cds-Sized d s (c ∷ directories) = elim (Option-cases (cd d s c)) [
  | inl e ↦ rw (cds, e) Sized-none
  | inr ((d', s'), e) ↦
      rw (cds, e)
        (subst (λ n. Sized n (cds d' s' directories)) (length-cd d s c d' s' e)
          (cds-Sized d' s' directories))
]

-- What resolving a path leaves of the shell: all that the prompt shows is as it was.
pub record IsRestored (s : Shell) (cluster_number : ℕ) (s' : Shell) : Type 0 where
  pub cwd : s'.cwd_cluster_number ≡ cluster_number
  pub len : s'.currentdirlen ≡ s.currentdirlen
  pub sized : length s'.current_dir ≡ length s.current_dir
  pub text : (k : ℕ) → k < strlen s.current_dir → at s'.current_dir k ≡ at s.current_dir k
  pub closed : at s'.current_dir (strlen s.current_dir) ≡ 0

memcpy-length : (dest src : List ℕ) (n : ℕ) → length (memcpy dest src n) ≡ length dest
unfolding memcpy
memcpy-length dest src zero = refl
memcpy-length [] src (suc n) = refl
memcpy-length (d ∷ dest) src (suc n) = ap suc (memcpy-length dest (drop 1 src) n)

memcpy-at :
    (dest src : List ℕ) (n k : ℕ)
    → n ≤ length dest
    → n ≤ length src
    → k < n
    → at (memcpy dest src n) k ≡ at src k
unfolding memcpy
memcpy-at dest src zero k a b c = absurd (omega (arith, c))
memcpy-at [] src (suc n) k a b c = absurd (omega (arith, a))
memcpy-at (d ∷ dest) [] (suc n) k a b c = absurd (omega (arith, b))
memcpy-at (d ∷ dest) (x ∷ src) (suc n) zero a b c = refl
memcpy-at (d ∷ dest) (x ∷ src) (suc n) (suc k) a b c =
    memcpy-at dest src n k (omega (arith, a)) (omega (arith, b)) (omega (arith, c))

strlen-le : (str : List ℕ) → strlen str ≤ length str
unfolding strlen
strlen-le [] = omega arith
strlen-le (c ∷ str) = ground (arith, strlen-le str)

restored-IsRestored :
    (s s' : Shell) (cluster_number : ℕ)
    → length s.current_dir ≡ 255
    → strlen s.current_dir < 255
    → length s'.current_dir ≡ length s.current_dir
    → IsRestored s cluster_number (restored s s' cluster_number)
unfolding restored
restored-IsRestored s s' cluster_number sized short same =
    let n = strlen s.current_dir in
    let copied = memcpy s'.current_dir s.current_dir n in
    let long : length copied ≡ length s'.current_dir =
      memcpy-length s'.current_dir s.current_dir n in
    record {
      cwd = refl;
      len = refl;
      sized = length-set copied n 0 ∙ long ∙ same;
      text = λ k h.
          get_or-set_ne copied n k 0 0 (omega (arith, h))
          ∙ memcpy-at s'.current_dir s.current_dir n k (omega (arith, short, sized, same))
              (strlen-le s.current_dir) h;
      closed = get_or-set_self copied n 0 0 (omega (arith, long, same, sized, short));
    }

-- The outcome of resolving a path, from what the calls of `cd` for its directories lead to.
abbrev pub Resolution :
    Shell → ℕ → Option (DriverState × Shell) → Option (ℕ × DriverState × Shell) → Type 0
Resolution s cluster_number none o = o ≡ none
Resolution s cluster_number (some (d', s')) o =
    (t : Shell) × (o ≡ some (s'.cwd_cluster_number, d', t)) × IsRestored s cluster_number t

abbrev pub cd_from : List ℕ → Option (DriverState × Shell) → Option (DriverState × Shell)
cd_from name none = none
cd_from name (some (d, s)) = cd d s name

resolved-Resolution :
    (s : Shell) (cluster_number : ℕ) (name : List ℕ) (o : Option (DriverState × Shell))
    → length s.current_dir ≡ 255
    → strlen s.current_dir < 255
    → Sized (length s.current_dir) o
    → Resolution s cluster_number o (
        Option.map
          (λ (d', s', name). (s'.cwd_cluster_number, d', restored s s' cluster_number))
          (with_name name o))
resolved-Resolution s cluster_number name none sized short z = refl
resolved-Resolution s cluster_number name (some (d', s')) sized short z = (
  restored s s' cluster_number,
  refl,
  restored-IsRestored s s' cluster_number sized short z.sized,
)

cd_last-with_name :
    (name : List ℕ) (o : Option (DriverState × Shell)) → cd_last (with_name name o) ≡ cd_from name o
cd_last-with_name name none = refl
cd_last-with_name name (some (d, s)) = refl

-- For a prompt's buffer of 255 bytes with a closing 0, and a path of at most 254 characters of
-- directory names and a last name, none of which has a slash: giving the path to the cd command
-- does what cd does for each directory in turn and then for the last name; resolving the path
-- fails exactly when one of the calls of cd for the directories runs out of range, and else ends
-- with the cluster and the driver that they lead to, with the given cluster as working directory,
-- and with the prompt's length, its buffer's size and its text with the closing 0 as they were.
pub cd_path-search_cluster_resolve_path :
    (d : DriverState) (s : Shell) (cluster_number : ℕ) (directories : List (List ℕ)) (name : List ℕ)
    → All IsName directories
    → IsName name
    → length s.current_dir ≡ 255
    → strlen s.current_dir < 255
    → length (join directories name) < 255
    → (cd_path d s (join directories name) ≡ cd_from name (cds d s directories))
      × Resolution s cluster_number
          (cds d s directories)
          (search_cluster_resolve_path d s cluster_number (join directories name))
unfolding cd_path search_cluster_resolve_path
cd_path-search_cluster_resolve_path d s cluster_number directories name h k sized short fits =
    let path = join directories name in
    let w = walk-join (suc (length path)) d s directories name h k (omega arith) in
    (
      ap cd_last w ∙ cd_last-with_name name (cds d s directories),
      rw (leb_of_lt 255 (strlen s.current_dir) short, leb_of_lt 255 (length path) fits, w)
          (resolved-Resolution s cluster_number name (cds d s directories) sized short
            (cds-Sized d s directories)),
    )
