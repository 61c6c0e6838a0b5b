-- ===== src/BpfLoader/Checks.antt =====
-- The loader on concrete answers of the kernel.
use stb_e_bpf.Base.{
  ◌+◌, ◌-◌, ◌≡◌, refl, true, false, none, some, List, [], ◌∷◌, map, arith, if◌then◌else◌, drop,
}
use stb_e_bpf.BpfLoader.{
  Status, World, InitReply, CpuReply, blank, bpf_loader_init, bpf_loader_create_perf_buffer,
  bpf_loader_cleanup,
}
use stb_e_bpf.BpfLoader.Descriptors.{left_open, init-descriptors}
use stb_e_bpf.BpfLoader.Leaks.{count, slot_fds, working, slot_of, cleanup-leaks}

abbrev world : World
world = record { open_fds = 0 ∷ 1 ∷ 2 ∷ []; maps = [] }

-- The last call fails.
abbrev no_attach : InitReply
no_attach = record { prog = some 3; socket = some 4; ifindex = true; bind = true; attach = false }

init-descriptors_example :
    let (success, (status, w')) = bpf_loader_init no_attach [] world in
    (success ≡ false)
    × (w'.open_fds ≡ left_open success no_attach world.open_fds)
    × (w'.maps ≡ [])
    × (status.nr_cpus ≡ 0)
    × (status.perf_map_fd ≡ none)
    × ((if success then (bpf_loader_cleanup (status, w')).1 else w') ≡ world)
init-descriptors_example = init-descriptors no_attach [] world

-- The first of two CPUs is offline, and the second gets descriptor 7.
abbrev cpus : List CpuReply
cpus =
    record { perf_event = none; update = true; mmap = true }
    ∷ record { perf_event = some 7; update = true; mmap = true }
    ∷ []

abbrev ready : Status
ready = record blank { perf_map_fd = some 5; bpf_prog_fd = some 3; socket_fd = some 4 }

-- Descriptor 7 is open once more than before.
cleanup-leaks_example :
    count 7 (bpf_loader_cleanup (bpf_loader_create_perf_buffer cpus (ready, world)).1).1.open_fds
    ≡ count 7 world.open_fds + slot_fds 7 (drop (working cpus) (map slot_of cpus)) - 0 - 0
cleanup-leaks_example = cleanup-leaks 7 cpus 5 ready world refl refl (omega arith)
