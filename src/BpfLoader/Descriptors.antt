-- ===== src/BpfLoader/Descriptors.antt =====
-- Which descriptors and ring buffers the loader leaves open.
use stb_e_bpf.Base.{ℕ, ◌≡◌, Bool, true, false, ◌&&◌, none, some, List, ◌∷◌, arith, if◌then◌else◌}
use stb_e_bpf.BpfLoader.{
  World, InitReply, release, close_fd, CpuReply, bpf_loader_init, clean_slots, close_opt,
  bpf_loader_cleanup,
}

-- What a start leaves: a failure nothing, a success the program and the socket.
abbrev pub left_open : Bool → InitReply → List ℕ → List ℕ
left_open false reply fds = fds
left_open true reply fds = elim reply.socket [
  | none ↦ fds
  | some s ↦ elim reply.prog [ none ↦ fds | some p ↦ s ∷ p ∷ fds ]
]

-- `bpf_loader_init`, whatever the system answers: it returns 0 exactly if all five calls succeed;
-- it leaves open exactly the socket and the program then, and nothing on any failure; no ring
-- buffer is mapped in any case; and cleaning up a success closes both.
pub init-descriptors :
    (reply : InitReply) (cpus : List CpuReply) (w : World)
    → let (success, (status, w')) = bpf_loader_init reply cpus w in
      (success ≡ (
        elim reply.prog [ none ↦ false | some p ↦ true ]
        && elim reply.socket [ none ↦ false | some s ↦ true ]
        && reply.ifindex
        && reply.bind
        && reply.attach))
      × (w'.open_fds ≡ left_open success reply w.open_fds)
      × (w'.maps ≡ w.maps)
      × (status.nr_cpus ≡ 0)
      × (status.perf_map_fd ≡ none)
      × ((if success then (bpf_loader_cleanup (status, w')).1 else w') ≡ w)
unfolding bpf_loader_init close_fd release bpf_loader_cleanup clean_slots close_opt
init-descriptors reply cpus w = ground arith
