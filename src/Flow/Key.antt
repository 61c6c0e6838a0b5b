-- ===== src/Flow/Key.antt =====
-- `memcmp` on keys decides equality of keys.
use stb_e_bpf.Base.{◌≡◌, ◌↔◌, true, arith}
use stb_e_bpf.Flow.{FlowKey, key_eq}

pub key_eq_iff : (a b : FlowKey) → (key_eq a b ≡ true) ↔ (a ≡ b)
unfolding key_eq
key_eq_iff a b = (ground arith, ground arith)

pub key_eq_refl : (a : FlowKey) → key_eq a a ≡ true
unfolding key_eq
key_eq_refl a = ground arith
