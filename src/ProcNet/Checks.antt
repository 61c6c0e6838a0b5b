-- ===== src/ProcNet/Checks.antt =====
-- The reader on concrete lines.
use stb_e_bpf.Base.{ℕ, ◌≡◌, true, some, List, [], ◌∷◌, arith, codes}
use stb_e_bpf.ProcNet.{parse_proc_net_file}
use stb_e_bpf.ProcNet.Lines.{kernel_lines, AreSlots, parse_proc_net_file-kernel}

abbrev rest : List ℕ
rest =
    codes
      " 0100007F:0CEA 00000000:0000 0A 00000000:00000000 00:00000000 00000000  1000        0 12345 1"

abbrev lines : List (ℕ × List ℕ × List ℕ)
lines = (3, b'0' ∷ [], rest) ∷ (2, b'1' ∷ b'0' ∷ [], rest) ∷ []

-- The line that the format is made for, with no colon behind the slot's number.
abbrev bare_line : List ℕ
bare_line = codes "   0 0100007F:0CEA 00000000:0000 0A 00000001:00000002"

lines-AreSlots : AreSlots lines
lines-AreSlots = (
  omega arith,
  ((omega arith, omega arith), tt),
  (omega arith, ((omega arith, omega arith), ((omega arith, omega arith), tt)), tt),
)

parse_proc_net_file-kernel_example :
    parse_proc_net_file (λ i. 0) 0 true 1024 (some ([] ∷ kernel_lines lines)) ≡ some []
parse_proc_net_file-kernel_example =
    parse_proc_net_file-kernel (λ i. 0) 0 true 1024 [] lines lines-AreSlots
