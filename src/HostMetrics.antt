-- ===== src/HostMetrics.antt =====
-- src/host_metrics.c: the numbers of which it makes percentages. A percentage is the pair of the
-- part and the whole, whose quotient the code takes in floating point; a whole of zero is 0 percent.
-- The lines of /proc/meminfo are below the 256 bytes of the line buffer.
pub mod Cpu
pub mod Memory
mod Checks
use stb_e_bpf.Base.{
  ℕ, zero, suc, ◌+◌, ◌-◌, Bool, true, false, Option, none, some, List, [], ◌∷◌, ltb, leb, ◌==◌,
  if◌then◌else◌, ◌>>=◌, length, get_or, add64, sub64, strncpy, codes,
}
use stb_e_bpf.ProcNet.{skip_space}
use stb_e_bpf.ProcNet.Dev.{read_ull, read_ulls, proc_net_read_dev}

-- A percentage; `undefined` is one that is made of a variable that has not been assigned.
pub data Percent : Type 0 where
  nothing : Percent
  share : (part whole : ℕ) → Percent
  undefined : Percent

-- The file behind what `fgets` takes: up to a newline, and at most `room` bytes.
unfoldable pub behind_line : ℕ → List ℕ → List ℕ
behind_line zero s = s
behind_line (suc room) [] = []
behind_line (suc room) (c ∷ s) = let more = behind_line room s in if c == 0x0A then s else more

-- A literal of a format, and what is behind it.
unfoldable pub match_text : List ℕ → List ℕ → Option (List ℕ)
match_text [] s = some s
match_text (c ∷ t) [] = none
match_text (c ∷ t) (d ∷ s) = let more = match_text t s in if c == d then more else none

-- `fscanf` with "cpu %llu %llu %llu %llu %llu %llu %llu": the numbers that are stored.
unfoldable pub scan_cpu : List ℕ → List ℕ
scan_cpu s = elim (match_text (codes "cpu") s) [ none ↦ [] | some rest ↦ read_ulls 7 rest ]

-- `total`, of user, nice, system, idle, iowait, irq and softirq.
unfoldable pub total_of : List ℕ → ℕ
total_of [] = 0
total_of (n ∷ ns) = add64 n (total_of ns)

unfoldable pub cpu_share : List ℕ → Percent
cpu_share numbers =
    let total = total_of numbers in
    if total == 0
    then nothing
    else share (sub64 (sub64 total (get_or numbers 3 0)) (get_or numbers 4 0)) total

-- `read_cpu_percent`, of the bytes of /proc/stat.
unfoldable pub read_cpu_percent : Option (List ℕ) → Percent
read_cpu_percent none = nothing
read_cpu_percent (some file) =
    let numbers = scan_cpu (behind_line 255 file) in
    if ltb (length numbers) 4
    then nothing
    else if ltb (length numbers) 7
    then undefined
    else cpu_share numbers

-- `sscanf(line, "<name> %llu kB", &n) == 1`, with the number.
unfoldable pub scan_field : List ℕ → List ℕ → Option ℕ
scan_field name line = do rest ← match_text name line; r ← read_ull rest; some r.0

-- The loop over the lines of /proc/meminfo, with `total` and `available` so far.
unfoldable pub scan_memory : List (List ℕ) → ℕ → ℕ → ℕ × ℕ
scan_memory [] total available = (total, available)
scan_memory (line ∷ lines) total available = elim (scan_field (codes "MemTotal:") line) [
  | some n ↦ scan_memory lines n available
  | none ↦ elim (scan_field (codes "MemAvailable:") line) [
    | some n ↦ (total, n)
    | none ↦ scan_memory lines total available
  ]
]

-- `read_memory_percent`, of the lines of /proc/meminfo.
unfoldable pub read_memory_percent : Option (List (List ℕ)) → Percent
read_memory_percent none = nothing
read_memory_percent (some lines) =
    let (total, available) = scan_memory lines 0 0 in
    if total == 0 then nothing else share (sub64 total available) total

-- `struct host_metric_t`; `D` is the percentage of the disk, which another program prints.
pub record HostMetric (D : Type 0) : Type 0 where
  pub timestamp_ns : ℕ
  pub probe_id : List ℕ
  pub cpu_percent : Percent
  pub memory_percent : Percent
  pub disk_percent : D
  pub net_rx_bytes : ℕ
  pub net_tx_bytes : ℕ
  pub disk_read_bytes : ℕ
  pub disk_write_bytes : ℕ

-- `host_metrics_collect`. A table of interfaces that cannot be opened leaves the two counters of
-- the record as they were.
unfoldable pub host_metrics_collect :
    {D : Type 0}
    → Option (List ℕ)
    → Option (List (List ℕ))
    → D
    → Option (List (List ℕ))
    → ℕ
    → List ℕ
    → HostMetric D
    → HostMetric D
host_metrics_collect stat meminfo disk dev now probe_id old =
    let net : ℕ × ℕ = elim (proc_net_read_dev dev) [
      | none ↦ (old.net_rx_bytes, old.net_tx_bytes)
      | some t ↦ t
    ] in
    record {
      timestamp_ns = now;
      probe_id = strncpy 64 probe_id;
      cpu_percent = read_cpu_percent stat;
      memory_percent = read_memory_percent meminfo;
      disk_percent = disk;
      net_rx_bytes = net.0;
      net_tx_bytes = net.1;
      disk_read_bytes = 0;
      disk_write_bytes = 0;
    }
