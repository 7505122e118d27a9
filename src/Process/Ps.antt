-- ===== src/Process/Ps.antt =====
-- `ps` of src/process.c: the bytes that it copies into the buffer, in order. A name has its closing 0
-- within its 32 bytes, so `strlen` ends in it.
use os_2024_ususbuntu_with_s.Prelude.{ℕ, List, [], ◌∷◌, ◌++◌, ◌==◌, if◌then◌else◌, take}
use os_2024_ususbuntu_with_s.Prelude.Int.{to_i32}
use os_2024_ususbuntu_with_s.Bytes.{strlen}
use os_2024_ususbuntu_with_s.Decimal.{int_to_str}
use os_2024_ususbuntu_with_s.Process.{
  ProcessControlBlock, ProcessState, process_new, process_ready, process_running, process_waiting,
  process_terminated,
}

abbrev pub process_state : ProcessState → List ℕ
process_state process_ready = b'R' ∷ b'E' ∷ b'A' ∷ b'D' ∷ b'Y' ∷ []
process_state process_running = b'R' ∷ b'U' ∷ b'N' ∷ b'N' ∷ b'I' ∷ b'N' ∷ b'G' ∷ []
process_state process_terminated =
    b'T' ∷ b'E' ∷ b'R' ∷ b'M' ∷ b'I' ∷ b'N' ∷ b'A' ∷ b'T' ∷ b'E' ∷ b'D' ∷ []
process_state process_waiting = b'W' ∷ b'A' ∷ b'I' ∷ b'T' ∷ b'I' ∷ b'N' ∷ b'G' ∷ []
process_state process_new = b'N' ∷ b'E' ∷ b'W' ∷ []

-- " (PID: "
abbrev pub pid_label : List ℕ
pid_label = b' ' ∷ b'(' ∷ b'P' ∷ b'I' ∷ b'D' ∷ b':' ∷ b' ' ∷ []

-- ") - "
abbrev pub pid_end : List ℕ
pid_end = b')' ∷ b' ' ∷ b'-' ∷ b' ' ∷ []

unfoldable pub ps_line : ProcessControlBlock → List ℕ
ps_line pcb =
    take (strlen pcb.name) pcb.name
    ++ (pid_label
        ++ (int_to_str (to_i32 pcb.pid) ++ (pid_end ++ (process_state pcb.state ++ (b'\n' ∷ [])))))

unfoldable pub ps : List ProcessControlBlock → List ℕ
ps [] = []
ps (pcb ∷ pcbs) = let rest = ps pcbs in if pcb.pid == 0 then rest else ps_line pcb ++ rest
