-- ===== src/BpfLoader/Elf/Checks.antt =====
-- The search in a small object file.
use stb_e_bpf.Base.{ℕ, zero, suc, ◌/◌, ◌%◌, List, [], ◌∷◌, ◌++◌, replicate}

abbrev le : ℕ → ℕ → List ℕ
le zero w = []
le (suc n) w = w % 0x100 ∷ le n (w / 0x100)

-- A section header, with nothing in the fields that are skipped.
abbrev section : ℕ → ℕ → ℕ → ℕ → List ℕ
section name type offset size =
    le 4 name ++ (le 4 type ++ (replicate 16 0 ++ (le 8 offset ++ (le 8 size ++ replicate 24 0))))

abbrev program : List ℕ
program = 0x61 ∷ replicate 7 0 ++ (0x95 ∷ replicate 7 0)

-- The header, the names at 64, the program at 72, and three section headers from 88 on.
abbrev file : List ℕ
file =
    (0x7F ∷ b'E' ∷ b'L' ∷ b'F' ∷ 2 ∷ 1 ∷ replicate 10 0)
    ++ (replicate 24 0
        ++ (le 8 88
            ++ (replicate 10 0
                ++ (le 2 64
                    ++ (le 2 3
                        ++ (le 2 2
                            ++ ((0 ∷ b't' ∷ b'e' ∷ b'x' ∷ b't' ∷ 0 ∷ 0 ∷ 0 ∷ [])
                                ++ (program
                                    ++ (section 0 0 0 0
                                        ++ (section 1 1 72 16 ++ section 0 3 64 8))))))))))
