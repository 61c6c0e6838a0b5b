-- ===== src/BpfLoader/Leaks.antt =====
-- What `bpf_loader_cleanup` leaves of the ring buffers that `bpf_loader_create_perf_buffer` makes.
use stb_e_bpf.Base.{
  ℕ, zero, suc, ◌+◌, ◌-◌, ◌≤◌, ◌≡◌, refl, sym, ap, ◌∙◌, Bool, true, false, ◌&&◌, Option, none, some,
  List, [], ◌∷◌, ◌++◌, map, arith, ◌==◌, if◌then◌else◌, length, set, modify, take, drop, replicate,
  length-append,
}
use mathlib.Core.List.{append_assoc}
use stb_e_bpf.BpfLoader.{
  perf_max_cpus, perf_page_cnt, Slot, Status, zero_slot, World, release, close_fd, unmap, CpuReply,
  set_up_cpu, set_up_cpus, bpf_loader_create_perf_buffer, clean_slot, clean_slots, close_opt,
  bpf_loader_cleanup,
}

-- How often a descriptor is in a list.
unfoldable pub count : ℕ → List ℕ → ℕ
count fd [] = 0
count fd (g ∷ gs) = (if g == fd then 1 else 0) + count fd gs

abbrev one : ℕ → Option ℕ → ℕ
one fd none = 0
one fd (some g) = if g == fd then 1 else 0

-- How often it is in the slots.
unfoldable pub slot_fds : ℕ → List Slot → ℕ
slot_fds fd [] = 0
slot_fds fd (s ∷ ss) = one fd s.perf_fd + slot_fds fd ss

-- A CPU that is set up, and the slot that it gets.
abbrev pub works : CpuReply → Bool
works r = elim r.perf_event [ none ↦ false | some fd ↦ r.update && r.mmap ]

abbrev pub slot_of : CpuReply → Slot
slot_of r =
    if works r
    then record { perf_fd = r.perf_event; perf_mmap = r.perf_event }
    else record { perf_fd = none; perf_mmap = none }

unfoldable pub working : List CpuReply → ℕ
working [] = 0
working (r ∷ rs) = (if works r then 1 else 0) + working rs

count-release :
    (fd g : ℕ) (gs : List ℕ) → count fd (release g gs) ≡ count fd gs - (if g == fd then 1 else 0)
unfolding count release
count-release fd g [] = ground arith
count-release fd g (x ∷ gs) = ground (arith, count-release fd g gs)

set-behind :
    (pre : List Slot) (s t : Slot) (rest : List Slot)
    → set (pre ++ (s ∷ rest)) (length pre) t ≡ (pre ++ (t ∷ [])) ++ rest
set-behind [] s t rest = refl
set-behind (p ∷ pre) s t rest = ap (λ l. p ∷ l) (set-behind pre s t rest)

modify-behind :
    (pre : List Slot) (s : Slot) (f : Slot → Slot) (rest : List Slot)
    → modify (pre ++ (s ∷ rest)) (length pre) f ≡ (pre ++ (f s ∷ [])) ++ rest
modify-behind [] s f rest = refl
modify-behind (p ∷ pre) s f rest = ap (λ l. p ∷ l) (modify-behind pre s f rest)

-- The slots before the loop: one for each answer, and m more.
abbrev blanks : List CpuReply → ℕ → List Slot
blanks [] m = replicate m zero_slot
blanks (r ∷ rs) m = zero_slot ∷ blanks rs m

blanks-replicate :
    (rs : List CpuReply) (n : ℕ) → length rs ≤ n → blanks rs (n - length rs) ≡ replicate n zero_slot
blanks-replicate [] n h = let same : n - 0 ≡ n = omega arith in rw same refl
blanks-replicate (r ∷ rs) zero h = absurd (omega arith)
blanks-replicate (r ∷ rs) (suc n) h =
    let same : suc n - suc (length rs) ≡ n - length rs = omega arith in
    ap (λ l. zero_slot ∷ l) (ap (λ k. blanks rs k) same ∙ blanks-replicate rs n (omega arith))

-- What a round of the loop, and the loop, make of the slots and of the descriptors.
record Effect (fd : ℕ) (slots : List Slot) (cpus fds : ℕ) (l l' : Status × World) : Type 0 where
  filled : l'.0.slots ≡ slots
  counted : l'.0.nr_cpus ≡ l.0.nr_cpus + cpus
  opens : count fd l'.1.open_fds ≡ count fd l.1.open_fds + fds
  socket : l'.0.socket_fd ≡ l.0.socket_fd
  prog : l'.0.bpf_prog_fd ≡ l.0.bpf_prog_fd

set_up_cpu-Effect :
    (fd : ℕ) (pre rest : List Slot) (event : Option ℕ) (update mmap : Bool) (status : Status)
    (w : World)
    → status.slots ≡ pre ++ (zero_slot ∷ rest)
    → let r : CpuReply = record { perf_event = event; update = update; mmap = mmap } in
      Effect fd
        ((pre ++ (slot_of r ∷ [])) ++ rest)
        (if works r then 1 else 0)
        (one fd (slot_of r).perf_fd)
        (status, w)
        (set_up_cpu (length pre) r (status, w))
unfolding set_up_cpu count close_fd release
set_up_cpu-Effect fd pre rest none update mmap status w e = record {
  filled =
      ap (λ l. modify l (length pre) (λ s. record s { perf_fd = none })) e
      ∙ modify-behind pre zero_slot (λ s. record s { perf_fd = none }) rest;
  counted = omega arith;
  opens = omega arith;
  socket = refl;
  prog = refl;
}
set_up_cpu-Effect fd pre rest (some g) false mmap status w e = record {
  filled =
      ap (λ l. modify l (length pre) (λ s. record s { perf_fd = none })) e
      ∙ modify-behind pre zero_slot (λ s. record s { perf_fd = none }) rest;
  counted = omega arith;
  opens = ground arith;
  socket = refl;
  prog = refl;
}
set_up_cpu-Effect fd pre rest (some g) true false status w e = record {
  filled =
      ap (λ l. modify l (length pre) (λ s. record s { perf_fd = none })) e
      ∙ modify-behind pre zero_slot (λ s. record s { perf_fd = none }) rest;
  counted = omega arith;
  opens = ground arith;
  socket = refl;
  prog = refl;
}
set_up_cpu-Effect fd pre rest (some g) true true status w e =
    let put : Slot = record { perf_fd = some g; perf_mmap = some g } in
    record {
      filled = ap (λ l. set l (length pre) put) e ∙ set-behind pre zero_slot put rest;
      counted = omega arith;
      opens = omega arith;
      socket = refl;
      prog = refl;
    }

set_up_cpus-Effect :
    (fd : ℕ) (pre : List Slot) (rs : List CpuReply) (m : ℕ) (status : Status) (w : World)
    → status.slots ≡ pre ++ blanks rs m
    → Effect fd
        (pre ++ (map slot_of rs ++ replicate m zero_slot))
        (working rs)
        (slot_fds fd (map slot_of rs))
        (status, w)
        (set_up_cpus (length pre) rs (status, w))
unfolding set_up_cpus slot_fds working
set_up_cpus-Effect fd pre [] m status w e = record {
  filled = e;
  counted = omega arith;
  opens = omega arith;
  socket = refl;
  prog = refl;
}
set_up_cpus-Effect fd pre (r ∷ rs) m status w e =
    let first = set_up_cpu-Effect fd pre (blanks rs m) r.perf_event r.update r.mmap status w e in
    let l = set_up_cpu (length pre) r (status, w) in
    let step : length (pre ++ (slot_of r ∷ [])) ≡ length pre + 1 =
      length-append pre (slot_of r ∷ []) in
    let rest = set_up_cpus-Effect fd (pre ++ (slot_of r ∷ [])) rs m l.0 l.1 first.filled in
    let same : set_up_cpus (length (pre ++ (slot_of r ∷ []))) rs l
        ≡ set_up_cpus (length pre + 1) rs l =
      ap (λ n. set_up_cpus n rs l) step in
    rw (← same) (record {
      filled =
          rest.filled ∙ append_assoc pre (slot_of r ∷ []) (map slot_of rs ++ replicate m zero_slot);
      counted = omega (arith, rest.counted, first.counted);
      opens = omega (arith, rest.opens, first.opens);
      socket = rest.socket ∙ first.socket;
      prog = rest.prog ∙ first.prog;
    })

clean_slot-count :
    (fd : ℕ) (perf_fd perf_mmap : Option ℕ) (w : World)
    → count fd (clean_slot (record { perf_fd = perf_fd; perf_mmap = perf_mmap }) w).1.open_fds
      ≡ count fd w.open_fds - one fd perf_fd
unfolding clean_slot close_fd unmap
clean_slot-count fd none none w = omega arith
clean_slot-count fd none (some m) w = omega arith
clean_slot-count fd (some g) none w = count-release fd g w.open_fds
clean_slot-count fd (some g) (some m) w = count-release fd g w.open_fds

clean_slots-count :
    (fd n : ℕ) (slots : List Slot) (w : World)
    → count fd (clean_slots n slots w).1.open_fds ≡ count fd w.open_fds - slot_fds fd (take n slots)
unfolding clean_slots slot_fds
clean_slots-count fd zero slots w = omega arith
clean_slots-count fd (suc n) [] w = omega arith
clean_slots-count fd (suc n) (s ∷ slots) w = omega (
  arith,
  clean_slots-count fd n slots (clean_slot s w).1,
  clean_slot-count fd s.perf_fd s.perf_mmap w,
)

slot_fds-split :
    (fd n : ℕ) (slots more : List Slot)
    → n ≤ length slots
    → slot_fds fd slots ≡ slot_fds fd (take n (slots ++ more)) + slot_fds fd (drop n slots)
unfolding slot_fds
slot_fds-split fd zero slots more h = omega arith
slot_fds-split fd (suc n) [] more h = absurd (omega arith)
slot_fds-split fd (suc n) (s ∷ slots) more h =
    omega (arith, slot_fds-split fd n slots more (omega arith))

close_opt-count :
    (fd : ℕ) (o : Option ℕ) (w : World)
    → count fd (close_opt o w).open_fds ≡ count fd w.open_fds - one fd o
unfolding close_opt close_fd
close_opt-count fd none w = omega arith
close_opt-count fd (some g) w = count-release fd g w.open_fds

take-all : {A : Type 0} → (n : ℕ) (xs : List A) → length xs ≤ n → take n xs ≡ xs
take-all zero [] h = refl
take-all zero (x ∷ xs) h = absurd (omega arith)
take-all (suc n) [] h = refl
take-all (suc n) (x ∷ xs) h = ap (λ t. x ∷ t) (take-all n xs (omega arith))

length-slots :
    (rs : List CpuReply) → (length (map slot_of rs) ≡ length rs) × (working rs ≤ length rs)
unfolding working
length-slots [] = (refl, omega arith)
length-slots (r ∷ rs) = ground (arith, length-slots rs)

cleanup-count :
    (fd : ℕ) (status : Status) (w : World)
    → count fd (bpf_loader_cleanup (status, w)).1.open_fds
      ≡ count fd w.open_fds
        - slot_fds fd (take status.nr_cpus status.slots)
        - one fd status.socket_fd
        - one fd status.bpf_prog_fd
unfolding bpf_loader_cleanup
cleanup-count fd status w =
    let w1 = (clean_slots status.nr_cpus status.slots w).1 in
    omega (
      arith,
      close_opt-count fd status.bpf_prog_fd (close_opt status.socket_fd w1),
      close_opt-count fd status.socket_fd w1,
      clean_slots-count fd status.nr_cpus status.slots w,
    )

-- The status with which the loop over the CPUs starts.
abbrev started : Status → Status
started status = record status { page_cnt = perf_page_cnt; nr_cpus = 0 }

create-loop :
    (rs : List CpuReply) (map_fd : ℕ) (status : Status) (w : World)
    → status.perf_map_fd ≡ some map_fd
    → length rs ≤ perf_max_cpus
    → (bpf_loader_create_perf_buffer rs (status, w)).1 ≡ set_up_cpus 0 rs (started status, w)
unfolding bpf_loader_create_perf_buffer
create-loop rs map_fd status w m few = simp (m, take-all perf_max_cpus rs few) refl

-- Making the ring buffers for at most sixteen CPUs and cleaning up: the program and the socket of
-- the status are closed, and so is each descriptor in the slots below the NUMBER of CPUs that have
-- been set up. The descriptors in the slots from there on stay open: for every CPU that fails, the
-- last ones of those that have been set up leak.
pub cleanup-leaks :
    (fd : ℕ) (rs : List CpuReply) (map_fd : ℕ) (status : Status) (w : World)
    → status.slots ≡ replicate perf_max_cpus zero_slot
    → status.perf_map_fd ≡ some map_fd
    → length rs ≤ perf_max_cpus
    → let made = (bpf_loader_create_perf_buffer rs (status, w)).1 in
      count fd (bpf_loader_cleanup made).1.open_fds
      ≡ count fd w.open_fds
        + slot_fds fd (drop (working rs) (map slot_of rs))
        - one fd status.socket_fd
        - one fd status.bpf_prog_fd
cleanup-leaks fd rs map_fd status w e m few =
    let made = set_up_cpus 0 rs (started status, w) in
    let blank_slots = e ∙ sym (blanks-replicate rs perf_max_cpus few) in
    let rest = replicate (perf_max_cpus - length rs) zero_slot in
    let effect =
      set_up_cpus-Effect fd [] rs (perf_max_cpus - length rs) (started status) w blank_slots in
    let cpus : made.0.nr_cpus ≡ working rs = omega (arith, effect.counted) in
    let closed : slot_fds fd (take made.0.nr_cpus made.0.slots)
        ≡ slot_fds fd (take (working rs) (map slot_of rs ++ rest)) =
      ap (λ n. slot_fds fd (take n made.0.slots)) cpus
      ∙ ap (λ l. slot_fds fd (take (working rs) l)) effect.filled in
    let (width, some_work) = length-slots rs in
    let split = slot_fds-split fd (working rs) (map slot_of rs) rest (omega arith) in
    let all = cleanup-count fd made.0 made.1 in
    rw (create-loop rs map_fd status w m few) (
      omega (
        arith,
        all,
        closed,
        split,
        effect.opens,
        ap (one fd) effect.socket,
        ap (one fd) effect.prog,
      ))
