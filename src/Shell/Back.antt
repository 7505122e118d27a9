-- ===== src/Shell/Back.antt =====
-- `cd` of src/user-shell.c into a directory and `cd ..` back.
use os_2024_ususbuntu_with_s.Prelude.{
  ℕ, ◌+◌, ◌*◌, ◌/◌, ◌%◌, ◌<◌, ◌≤◌, ◌≡◌, ◌≢◌, refl, sym, ap, ◌∙◌, false, true, zero, suc, ◌-◌, ◌++◌,
  some, min, take, length-take, ltb_of_le, leb_of_lt, List, [], ◌∷◌, length, arith, ==-false,
  ==-true, set, get_or-set_self, get_or-set_ne, ℕ_discrete,
}
use os_2024_ususbuntu_with_s.Bytes.{at, memcmp, is_null, strlen}
use os_2024_ususbuntu_with_s.Fat32.Driver.{DriverState, code, root_cluster_number}
use os_2024_ususbuntu_with_s.Fat32.Directory.{
  dir_ext, read_directory, move_to_child_directory, move_to_parent_directory,
}
use os_2024_ususbuntu_with_s.Shell.{
  Shell, shown, enter, entered_dir, leave, left, is_include, cd, cd_child, cd_parent, request_for,
}
use os_2024_ususbuntu_with_s.Shell.Walk.{slash}
use os_2024_ususbuntu_with_s.Shell.Cd.{
  IsPlain, IsPrompt, padded, entered, enter-entered, entered-len, entered-sized, entered-below,
  entered-name, entered-slash, cut, cut-IsCut,
}

is_include-take :
    (dir : List ℕ) (k n : ℕ)
    → at dir k ≡ slash
    → k < n
    → k < length dir
    → is_include (take n dir) slash ≡ true
unfolding is_include
is_include-take [] k n e a b = absurd (omega (arith, b))
is_include-take (c ∷ dir) k zero e a b = absurd (omega (arith, a))
is_include-take (c ∷ dir) zero (suc n) e a b = rw (==-true c slash e) refl
is_include-take (c ∷ dir) (suc k) (suc n) e a b =
    let ih = is_include-take dir k n e (omega (arith, a)) (omega (arith, b)) in ground (arith, ih)

-- The prompt with a name and a `/` appended.
pub record IsEntered (s : Shell) (name : List ℕ) (child : ℕ) (s' : Shell) : Type 0 where
  pub cwd : s'.cwd_cluster_number ≡ child
  pub len : s'.currentdirlen ≡ s.currentdirlen + length name + 1
  pub kept : (k : ℕ) → k < s.currentdirlen → at s'.current_dir k ≡ at s.current_dir k
  pub named : (k : ℕ) → k < length name → at s'.current_dir (s.currentdirlen + k) ≡ at name k
  pub ends : at s'.current_dir (s.currentdirlen + length name) ≡ slash

-- The directory and the text of the prompt up to its length.
pub record IsBack (s s' : Shell) : Type 0 where
  pub cwd : s'.cwd_cluster_number ≡ s.cwd_cluster_number
  pub len : s'.currentdirlen ≡ s.currentdirlen
  pub text : (k : ℕ) → k < s.currentdirlen → at s'.current_dir k ≡ at s.current_dir k

-- ".."
abbrev pub dot_dot : List ℕ
dot_dot = b'.' ∷ b'.' ∷ []

no_dot : (argument : List ℕ) → at argument 0 ≢ b'.' → is_null (memcmp dot_dot argument 2) ≡ false
unfolding memcmp
no_dot argument h = ground arith

module _ (d : DriverState) (s : Shell) (v : IsPrompt s) (name : List ℕ) (plain : IsPlain name)
    (short : length name ≤ 8) (ne : name ≢ []) (plain_dot : at name 0 ≢ b'.')
    (low : s.retcode < 256) (d' : DriverState) (child : ℕ)
    (found : read_directory d (request_for s (padded name)) ≡ (code 0, d'))
    (moved : move_to_child_directory d' (request_for s (padded name)) ≡ child) where
  arriving : Shell
  arriving = record s { name = padded name; retcode = child; cwd_cluster_number = child }

  arriving-IsPrompt : IsPrompt arriving
  unfolding arriving
  arriving-IsPrompt = record {
    sized = v.sized;
    some_text = v.some_text;
    room = v.room;
    ends = v.ends;
  }

  appended : length (shown arriving) ≤ 8
  unfolding arriving
  appended = omega (arith, length-take (min 8 (strlen (padded name ++ dir_ext))) (padded name))

  cd-enter : cd d s name ≡ some (d', enter arriving)
  unfolding cd cd_child entered_dir arriving appended
  cd-enter =
      rw
        (
          no_dot name plain_dot,
          ltb_of_le 19 (length name) (omega (arith, short)),
          found,
          ==-true (s.retcode / 256 * 256 + 0) 0 (omega (arith, low)),
          moved,
          leb_of_lt 255 (s.currentdirlen + length (shown arriving))
              (omega (arith, v.room, appended)),
        )
        refl

  arriving_name : arriving.name ≡ padded name
  unfolding arriving
  arriving_name = refl

  there : Shell
  there = entered arriving arriving-IsPrompt name plain short arriving_name

  cd-there : cd d s name ≡ some (d', there)
  unfolding there
  cd-there =
      cd-enter
      ∙ ap (λ x. some (d', x))
          (enter-entered arriving arriving-IsPrompt name plain short arriving_name)

  there-IsEntered : IsEntered s name child there
  unfolding there arriving entered
  there-IsEntered = record {
    cwd = refl;
    len = entered-len arriving arriving-IsPrompt name plain short arriving_name;
    kept = entered-below arriving arriving-IsPrompt name plain short arriving_name;
    named = entered-name arriving arriving-IsPrompt name plain short arriving_name;
    ends = entered-slash arriving arriving-IsPrompt name plain short arriving_name;
  }

  module _ (not_root : child ≢ root_cluster_number)
      (home : move_to_parent_directory d'
          (record (request_for s (padded name)) { parent_cluster_number = child })
        ≡ s.cwd_cluster_number) where
    there-sized : length there.current_dir ≡ 255
    unfolding there arriving
    there-sized = entered-sized arriving arriving-IsPrompt name plain short arriving_name

    back : Shell
    back =
        leave (record there {
          retcode = s.cwd_cluster_number;
          cwd_cluster_number = s.cwd_cluster_number;
        })

    last_name : (there.currentdirlen + 254) % 256 ≡ s.currentdirlen + length name - 1
    last_name = omega (arith, there-IsEntered.len, v.room, v.some_text, short)

    has_slash :
        is_include (take (s.currentdirlen + length name - 1 + 1) there.current_dir) slash ≡ true
    has_slash =
        is_include-take there.current_dir (s.currentdirlen - 1)
          (s.currentdirlen + length name - 1 + 1)
          (there-IsEntered.kept (s.currentdirlen - 1) (omega (arith, v.some_text)) ∙ v.ends)
          (omega (arith, v.some_text)) (omega (arith, v.room, there-sized))

    cd-back : cd d' there dot_dot ≡ some (d', back)
    unfolding cd cd_parent left memcmp there arriving entered back
    cd-back =
        rw
          (
            ==-false child 2 not_root,
            home,
            last_name,
            leb_of_lt 255 (s.currentdirlen + length name - 1) (omega (arith, v.room, short)),
            has_slash,
          )
          refl

    back-IsBack : IsBack s back
    unfolding back leave there arriving cut
    back-IsBack =
        let c = cut-IsCut arriving arriving-IsPrompt name plain short arriving_name ne in
        let r = cut arriving arriving-IsPrompt name plain short arriving_name in
        record {
          cwd = refl;
          len = ap (λ i. (i + 1) % 256) c.ends ∙ omega (arith, v.some_text, v.room);
          text = λ k lt. elim (ℕ_discrete k r.1) [
            | yes e ↦
                ap (at (set r.0 r.1 slash)) e
                ∙ get_or-set_self r.0 r.1 slash 0 (
                    omega (
                      arith,
                      c.ends,
                      c.sized,
                      v.room,
                      entered-sized arriving arriving-IsPrompt name plain short arriving_name,
                    ))
                ∙ sym v.ends
                ∙ ap (at s.current_dir) (omega (arith, e, c.ends))
            | no other ↦
                get_or-set_ne r.0 r.1 k slash 0 (λ e. other (sym e))
                ∙ c.below k lt
                ∙ entered-below arriving arriving-IsPrompt name plain short arriving_name k lt
          ];
        }

    -- For a prompt of 255 bytes that ends in a slash with room for a name, a one-byte return code,
    -- and a plain name of 1 to 8 characters, without a dot at its front, of a directory that is
    -- found, is not the root and whose parent is the working directory, cd succeeds, appends the
    -- name and a slash and moves there, and cd .. then succeeds and restores the working directory
    -- and the prompt's text and length.
    pub cd-cd :
        (a b : DriverState × Shell) × (cd d s name ≡ some a)
        × (cd a.0 a.1 dot_dot ≡ some b)
        × IsEntered s name child a.1
        × IsBack s b.1
        × (b.0 ≡ d')
    cd-cd = ((d', there), (d', back), cd-there, cd-back, there-IsEntered, back-IsBack, refl)
