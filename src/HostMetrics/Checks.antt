-- ===== src/HostMetrics/Checks.antt =====
-- The readers on small files.
use stb_e_bpf.Base.{◌≡◌, refl, some, [], ◌∷◌, ◌++◌, arith, replicate, false}
use stb_e_bpf.ProcNet.{is_space, is_digit, digit_value}
use stb_e_bpf.ProcNet.Dev.{proc_net_read_dev}
use stb_e_bpf.ProcNet.Dev.Totals.{
  Interface, IsInterface, dev_line, proc_net_read_dev-kernel, received, transmitted,
}
use stb_e_bpf.HostMetrics.{share, read_cpu_percent}
use stb_e_bpf.HostMetrics.Cpu.{stat_file, read_cpu_percent-kernel}

newline : is_digit 10 0x0A ≡ false
unfolding is_digit digit_value
newline = refl

-- One processor that has been idle in 900 of 1000 ticks.
read_cpu_percent-kernel_example :
    read_cpu_percent (some (stat_file [] 0 (50 ∷ 0 ∷ 50 ∷ 900 ∷ 0 ∷ 0 ∷ 0 ∷ []) (0x0A ∷ [])))
    ≡ share 50 1000
read_cpu_percent-kernel_example =
    read_cpu_percent-kernel [] (0x0A ∷ []) 0 50 0 50 900 0 0 (0 ∷ []) (omega arith) tt
      (
        omega arith,
        (
          omega arith,
          (
            omega arith,
            (omega arith, (omega arith, (omega arith, (omega arith, (omega arith, tt))))),
          ),
        ),
      )
      (omega arith) newline

-- Two interfaces.
abbrev loopback : Interface
loopback = record {
  pad = 4;
  name = b'l' ∷ b'o' ∷ [];
  counters = 7 ∷ (replicate 7 0 ++ (7 ∷ replicate 7 0));
}

abbrev ethernet : Interface
ethernet = record {
  pad = 2;
  name = b'e' ∷ b'0' ∷ [];
  counters = 1000 ∷ (replicate 7 1 ++ (2000 ∷ replicate 7 1));
}

loopback-IsInterface : IsInterface loopback
unfolding is_space
loopback-IsInterface = record {
  named = omega arith;
  short = omega arith;
  letters = ((refl, refl), ((refl, refl), tt));
  many = omega arith;
  small = omega arith;
}

ethernet-IsInterface : IsInterface ethernet
unfolding is_space
ethernet-IsInterface = record {
  named = omega arith;
  short = omega arith;
  letters = ((refl, refl), ((refl, refl), tt));
  many = omega arith;
  small = omega arith;
}

proc_net_read_dev-kernel_example :
    proc_net_read_dev (some ([] ∷ [] ∷ dev_line loopback ∷ dev_line ethernet ∷ []))
    ≡ some (1007, 2007)
unfolding received transmitted
proc_net_read_dev-kernel_example =
    proc_net_read_dev-kernel [] [] (loopback ∷ ethernet ∷ [])
      (loopback-IsInterface, (ethernet-IsInterface, tt))
