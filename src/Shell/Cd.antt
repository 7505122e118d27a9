-- ===== src/Shell/Cd.antt =====
-- `cd` of src/user-shell.c over the directories of src/fat32.c: into a directory and back.
use os_2024_ususbuntu_with_s.Prelude.{
  ℕ, zero, suc, ◌+◌, ◌-◌, ◌%◌, ◌<◌, ◌≤◌, ◌≡◌, ◌≢◌, refl, sym, ap, ◌∙◌, List, [], ◌∷◌, ◌++◌, length,
  arith, ==-false, set, take, min, replicate, length-set, get_or-set_self, get_or-set_ne,
}
use os_2024_ususbuntu_with_s.Bytes.{at, strlen}
use os_2024_ususbuntu_with_s.Fat32.Directory.{dir_ext}
use os_2024_ususbuntu_with_s.Shell.{Shell, cut_loop, append_loop, enter}
use os_2024_ususbuntu_with_s.Shell.Walk.{
  slash, IsCut, cut_loop-IsCut, IsAppended, append_loop-IsAppended,
}

-- The characters of a name: neither 0 nor `/`.
abbrev pub IsPlain : List ℕ → Type 0
IsPlain [] = Unit
IsPlain (c ∷ name) = (c ≢ 0) × (c ≢ slash) × IsPlain name

IsPlain-at : (name : List ℕ) (k : ℕ) → IsPlain name → k < length name → at name k ≢ slash
IsPlain-at [] k h lt = absurd (omega arith)
IsPlain-at (c ∷ name) zero h lt = h.1
IsPlain-at (c ∷ name) (suc k) h lt = IsPlain-at name k h.2 (omega arith)

-- What `cd` takes from the request's name is the argument.
shown-name :
    (name : List ℕ) (n filler : ℕ)
    → IsPlain name
    → length name ≤ n
    → n ≤ filler
    → take
        (min n (strlen (take n (name ++ replicate filler 0) ++ dir_ext)))
        (take n (name ++ replicate filler 0))
      ≡ name
unfolding strlen
shown-name [] zero filler p a b = refl
shown-name [] (suc n) zero p a b = absurd (omega arith)
shown-name [] (suc n) (suc filler) p a b =
    let e : min (suc n) 0 ≡ 0 = omega arith in ap (λ m. take m (0 ∷ take n (replicate filler 0))) e
shown-name (c ∷ name) zero filler p a b = absurd (omega arith)
shown-name (c ∷ name) (suc n) filler p a b =
    let rest = strlen (take n (name ++ replicate filler 0) ++ dir_ext) in
    let e : min (suc n) (suc rest) ≡ suc (min n rest) = omega arith in
    rw (==-false c 0 p.0) (
      ap (λ m. take m (c ∷ take n (name ++ replicate filler 0))) e
      ∙ ap (λ l. c ∷ l) (shown-name name n filler p.2 (omega arith) (omega arith)))

-- The prompt's text ends in a `/` and has room for a name.
pub record IsPrompt (s : Shell) : Type 0 where
  pub sized : length s.current_dir ≡ 255
  pub some_text : 0 < s.currentdirlen
  pub room : s.currentdirlen + 9 < 255
  pub ends : at s.current_dir (s.currentdirlen - 1) ≡ slash

abbrev pub padded : List ℕ → List ℕ
padded argument = take 8 (argument ++ replicate 8 0)

nonempty : (name : List ℕ) → name ≢ [] → 0 < length name
nonempty [] ne = absurd (ne refl)
nonempty (c ∷ name) ne = omega arith

module _ (s : Shell) (v : IsPrompt s) (name : List ℕ) (plain : IsPlain name)
    (short : length name ≤ 8) (named : s.name ≡ padded name) where
  unfoldable pub appended : List ℕ × ℕ
  appended = append_loop name s.current_dir s.currentdirlen

  appended-IsAppended : IsAppended name s.current_dir s.currentdirlen appended
  unfolding appended
  appended-IsAppended =
      append_loop-IsAppended name s.current_dir s.currentdirlen
        (omega (arith, v.sized, v.room, short)) (omega (arith, v.sized))

  unfoldable pub entered : Shell
  entered = record s {
    current_dir = set appended.0 appended.1 slash;
    currentdirlen = (appended.1 + 1) % 256;
  }

  pub enter-entered : enter s ≡ entered
  unfolding enter entered appended
  enter-entered =
      ap
        (λ shown. record s {
          current_dir =
              set (append_loop shown s.current_dir s.currentdirlen).0
                (append_loop shown s.current_dir s.currentdirlen).1 slash;
          currentdirlen = ((append_loop shown s.current_dir s.currentdirlen).1 + 1) % 256;
        })
        (ap (λ x. take (min 8 (strlen (x ++ dir_ext))) x) named
          ∙ shown-name name 8 8 plain short (omega arith))

  pub entered-len : entered.currentdirlen ≡ s.currentdirlen + length name + 1
  unfolding entered
  entered-len = omega (arith, appended-IsAppended.ends, v.room, short)

  pub entered-sized : length entered.current_dir ≡ 255
  unfolding entered
  entered-sized = length-set appended.0 appended.1 slash ∙ appended-IsAppended.sized ∙ v.sized

  pub entered-below : (k : ℕ) → k < s.currentdirlen → at entered.current_dir k ≡ at s.current_dir k
  unfolding entered
  entered-below k lt =
      get_or-set_ne appended.0 appended.1 k slash 0 (omega (arith, appended-IsAppended.ends))
      ∙ appended-IsAppended.below k lt

  pub entered-name :
      (k : ℕ) → k < length name → at entered.current_dir (s.currentdirlen + k) ≡ at name k
  unfolding entered
  entered-name k lt =
      get_or-set_ne appended.0 appended.1 (s.currentdirlen + k) slash 0
        (omega (arith, appended-IsAppended.ends))
      ∙ appended-IsAppended.written k lt

  pub entered-slash : at entered.current_dir (s.currentdirlen + length name) ≡ slash
  unfolding entered
  entered-slash =
      ap (at entered.current_dir) (sym appended-IsAppended.ends)
      ∙ get_or-set_self appended.0 appended.1 slash 0 (
          omega
            (arith, appended-IsAppended.ends, appended-IsAppended.sized, v.sized, v.room, short))

  -- The way back.
  unfoldable pub cut : List ℕ × ℕ
  cut = cut_loop 256 entered.current_dir ((entered.currentdirlen + 254) % 256)

  pub cut-IsCut : name ≢ [] → IsCut s.currentdirlen entered.current_dir cut
  unfolding cut
  cut-IsCut ne =
      let long : 0 < length name = nonempty name ne in
      let from : (entered.currentdirlen + 254) % 256 ≡ s.currentdirlen + length name - 1 =
        omega (arith, entered-len, v.room, short) in
      rw from (
        cut_loop-IsCut 256 entered.current_dir (s.currentdirlen + length name - 1) s.currentdirlen
          (omega arith) (omega (arith, v.room, short)) v.some_text (omega (arith, v.room, short))
          (entered-below (s.currentdirlen - 1) (omega (arith, v.some_text)) ∙ v.ends)
          (λ k lo hi z. IsPlain-at name (k - s.currentdirlen) plain (omega arith) (
            sym (entered-name (k - s.currentdirlen) (omega arith))
            ∙ ap (at entered.current_dir) {x = s.currentdirlen + (k - s.currentdirlen)} {y = k}
                (omega arith)
            ∙ z)))
