-- ===== src/HostMetrics/Cpu.antt =====
-- Which processor src/host_metrics.c reports, and of which of its times.
use stb_e_bpf.Base.{
  ℕ, zero, suc, ◌≤◌, ◌<◌, ◌≡◌, refl, ap, false, some, List, [], ◌∷◌, ◌++◌, arith, ◌==◌, length,
  take, All, digits_of, u64_mod, codes, ◌+◌, if◌then◌else◌,
}
use stb_e_bpf.ProcNet.Dev.{read_ulls}
use stb_e_bpf.ProcNet.Dev.Numbers.{Ends, spaced, spaced-Ends, read_ull-decimal, read_ulls-spaced}
use stb_e_bpf.HostMetrics.{
  behind_line, match_text, scan_cpu, cpu_share, read_cpu_percent, total_of, nothing, share,
}

-- /proc/stat: a first line of at most 254 bytes, and the line of one processor with its number and
-- its times.
abbrev pub stat_file : List ℕ → ℕ → List ℕ → List ℕ → List ℕ
stat_file first cpu times rest =
    first ++ (0x0A ∷ b'c' ∷ b'p' ∷ b'u' ∷ digits_of cpu cpu (spaced times rest))

behind_line-first :
    (room : ℕ) (first rest : List ℕ)
    → length first < room
    → All (λ c. (c == 0x0A) ≡ false) first
    → behind_line room (first ++ (0x0A ∷ rest)) ≡ rest
unfolding behind_line
behind_line-first zero first rest h l = absurd (omega arith)
behind_line-first (suc room) [] rest h l = refl
behind_line-first (suc room) (c ∷ first) rest h l =
    rw (l.0) (behind_line-first room first rest (omega arith) l.1)

-- A number and the numbers behind it.
read_ulls-numbers :
    (k n : ℕ) (ns rest : List ℕ)
    → k ≤ length ns
    → All (λ m. m < u64_mod) (n ∷ ns)
    → Ends rest
    → read_ulls (suc k) (digits_of n n (spaced ns rest)) ≡ n ∷ take k ns
unfolding read_ulls
read_ulls-numbers k n ns rest h small ends =
    rw (read_ull-decimal n (spaced ns rest) small.0 (spaced-Ends ns rest ends), read_ulls)
      (ap (λ t. n ∷ t) (read_ulls-spaced k ns rest h small.1 ends))

-- Seven numbers whose sum does not wrap.
cpu_share-sum :
    (a b c d e f g : ℕ)
    → a + b + c + d + e + f + g < u64_mod
    → cpu_share (a ∷ b ∷ c ∷ d ∷ e ∷ f ∷ g ∷ []) ≡ (
        if a + b + c + d + e + f + g == 0
        then nothing
        else share (a + b + c + f + g) (a + b + c + d + e + f + g))
unfolding cpu_share total_of
cpu_share-sum a b c d e f g low = ground arith

-- For a file as the kernel writes it: the line of all processors is read away, and the number of
-- the first one is taken for its first time, so that each time counts as the one before it. While
-- the sum of that number and of the first six times is below 2^64, it is the whole, and the part
-- that counts as busy is the sum without the times of the system and of idling, which stand third
-- and fourth; a sum of zero gives no percentage.
pub read_cpu_percent-kernel :
    (first rest : List ℕ) (cpu user nice system idle iowait irq : ℕ) (more : List ℕ)
    → length first < 255
    → All (λ c. (c == 0x0A) ≡ false) first
    → All (λ n. n < u64_mod) (cpu ∷ user ∷ nice ∷ system ∷ idle ∷ iowait ∷ irq ∷ more)
    → cpu + user + nice + system + idle + iowait + irq < u64_mod
    → Ends rest
    → read_cpu_percent
        (some (stat_file first cpu (user ∷ nice ∷ system ∷ idle ∷ iowait ∷ irq ∷ more) rest))
      ≡ (if cpu + user + nice + system + idle + iowait + irq == 0
          then nothing
          else share
              (cpu + user + nice + iowait + irq)
              (cpu + user + nice + system + idle + iowait + irq))
unfolding read_cpu_percent scan_cpu codes match_text
read_cpu_percent-kernel first rest cpu user nice system idle iowait irq more short line small low
      ends =
    let times = user ∷ nice ∷ system ∷ idle ∷ iowait ∷ irq ∷ more in
    let numbers = read_ulls-numbers 6 cpu times rest (omega arith) small ends in
    rw
      (behind_line-first 255 first (b'c' ∷ b'p' ∷ b'u' ∷ digits_of cpu cpu (spaced times rest))
        short line)
      (rw numbers (cpu_share-sum cpu user nice system idle iowait irq low))
