-- ===== src/Shell.antt =====
-- The shell's texts and directories: src/user-shell.c. A text is given by its characters before the
-- closing 0. A system call is the kernel's function; its `retcode` is the shell's 32-bit variable, of
-- which the calls 0 to 3 write one byte.
pub mod Split
pub mod Walk
pub mod Cd
pub mod Back
pub mod Names
pub mod Buffer
pub mod Paths
pub mod Resolve
use os_2024_ususbuntu_with_s.Prelude.{
  ℕ, zero, suc, ◌+◌, ◌-◌, ◌*◌, ◌/◌, ◌%◌, Bool, true, false, ◌&&◌, ◌||◌, List, [], ◌∷◌, ◌++◌, Option,
  none, some, not, leb, ltb, ◌==◌, if◌then◌else◌, length, set, take, replicate, min,
}
use os_2024_ususbuntu_with_s.Bytes.{at, memcmp, is_null, strlen}
use os_2024_ususbuntu_with_s.Fat32.Driver.{
  DriverState, DriverRequest, Code, unknown, code, root_cluster_number,
}
use os_2024_ususbuntu_with_s.Fat32.Directory.{
  dir_ext, read_directory, move_to_child_directory, move_to_parent_directory,
}

-- The first loop of `split_by_first`: what it copies to `result`, and what it stops at.
unfoldable pub split_loop : List ℕ → ℕ → List ℕ × List ℕ
split_loop [] by = ([], [])
split_loop (c ∷ pstr) by =
    let (result, rest) = split_loop pstr by in
    if c == by then ([], c ∷ pstr) else (c ∷ result, rest)

abbrev pub behind : List ℕ → List ℕ
behind [] = []
behind (c ∷ rest) = rest

-- `result` and `pstr` behind the call. The copying loop moves the rest to the front.
unfoldable pub split_by_first : List ℕ → ℕ → List ℕ × List ℕ
split_by_first pstr by = let (result, rest) = split_loop pstr by in (result, behind rest)

unfoldable pub is_include : List ℕ → ℕ → Bool
is_include [] target = false
is_include (c ∷ str) target = let rest = is_include str target in if c == target then true else rest

unfoldable pub strlen_before_char : List ℕ → ℕ → ℕ
strlen_before_char [] cmp = 0
strlen_before_char (c ∷ str) cmp =
    let rest = strlen_before_char str cmp in if c == cmp then 0 else suc rest

-- The shell's variables, with the fields of its request that `cd` uses. `current_dir` has 255 bytes.
pub record Shell : Type 0 where
  pub name : List ℕ
  pub current_dir : List ℕ
  pub currentdirlen : ℕ
  pub cwd_cluster_number : ℕ
  pub retcode : ℕ

abbrev pub code_byte : Code → ℕ
code_byte unknown = 255
code_byte (code n) = n % 256

-- `*((int8_t *)&retcode) = ...`
abbrev pub set_status : ℕ → Code → ℕ
set_status retcode c = retcode / 256 * 256 + code_byte c

abbrev pub request_for : Shell → List ℕ → DriverRequest
request_for s name = record {
  buf = [];
  name = name;
  ext = dir_ext;
  parent_cluster_number = s.cwd_cluster_number;
  buffer_size = 512;
}

-- `while (current_dir[currentdirlen] != '/') { ... }` with fuel; the length is a byte.
unfoldable pub cut_loop : ℕ → List ℕ → ℕ → List ℕ × ℕ
cut_loop zero dir i = (dir, i)
cut_loop (suc fuel) dir i =
    let rest = cut_loop fuel (set dir i 0) ((i + 255) % 256) in
    if at dir i == b'/' then (dir, i) else rest

-- The name is cut off, once `currentdirlen -= 2` has been done.
unfoldable pub leave : Shell → Shell
leave s =
    let (dir, i) = cut_loop 256 s.current_dir ((s.currentdirlen + 254) % 256) in
    record s { current_dir = set dir i b'/'; currentdirlen = (i + 1) % 256 }

-- Without a `/` at or below the index the loop comes to index 255, which is outside the text.
unfoldable pub left : Shell → Option Shell
left s =
    let i = (s.currentdirlen + 254) % 256 in
    if leb 255 i || not (is_include (take (i + 1) s.current_dir) b'/') then none else some (leave s)

-- The loop that appends a name, without the last `/`.
unfoldable pub append_loop : List ℕ → List ℕ → ℕ → List ℕ × ℕ
append_loop [] dir i = (dir, i)
append_loop (c ∷ name) dir i = append_loop name (set dir i c) ((i + 1) % 256)

-- The characters of `request.name` that the loop appends.
abbrev pub shown : Shell → List ℕ
shown s = take (min 8 (strlen (s.name ++ dir_ext))) s.name

unfoldable pub enter : Shell → Shell
enter s =
    let (dir, i) = append_loop (shown s) s.current_dir s.currentdirlen in
    record s { current_dir = set dir i b'/'; currentdirlen = (i + 1) % 256 }

-- `none` is a write outside the text.
unfoldable pub entered_dir : Shell → Option Shell
entered_dir s = if leb 255 (s.currentdirlen + length (shown s)) then none else some (enter s)

abbrev pub with_driver : DriverState → Option Shell → Option (DriverState × Shell)
with_driver d none = none
with_driver d (some s) = some (d, s)

-- An argument may run from `request.name` into the request's 11 bytes of `ext`, parent and size, of
-- which the first two are set behind it and the last is not read; a longer one is out of range. The
-- state of the driver comes with the shell's.
unfoldable pub cd_child : DriverState → Shell → List ℕ → Option (DriverState × Shell)
cd_child d s argument =
    let name = take 8 (argument ++ replicate 8 0) in
    let q = request_for s name in
    let r = read_directory d q in
    let answered = record s { name = name; retcode = set_status s.retcode r.0 } in
    let child = move_to_child_directory r.1 q in
    if ltb 19 (length argument)
    then none
    else if answered.retcode == 0
    then with_driver r.1
        (entered_dir (record answered { retcode = child; cwd_cluster_number = child }))
    else some (r.1, answered)

unfoldable pub cd_parent : DriverState → Shell → Option (DriverState × Shell)
cd_parent d s =
    let parent = move_to_parent_directory d (request_for s s.name) in
    if s.cwd_cluster_number == root_cluster_number
    then some (d, s)
    else with_driver d (left (record s { retcode = parent; cwd_cluster_number = parent }))

unfoldable pub cd : DriverState → Shell → List ℕ → Option (DriverState × Shell)
cd d s argument =
    if is_null (memcmp (b'.' ∷ b'.' ∷ []) argument 2) && (length argument == 2)
    then cd_parent d s
    else cd_child d s argument
