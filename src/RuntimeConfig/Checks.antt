-- ===== src/RuntimeConfig/Checks.antt =====
-- The settings of concrete environments.
use stb_e_bpf.Base.{◌≡◌, refl, none, some, [], ◌∷◌, arith, replicate, codes}
use stb_e_bpf.Probe.Http.{skip_blank, read_digits, atoi_of}
use stb_e_bpf.RuntimeConfig.{Env, given, config_load_from_env}
use stb_e_bpf.RuntimeConfig.Names.{IsText}

abbrev unset : Env
unset = record { relay_ip = none; relay_port = none; probe_id = none; log_level = none }

-- Nothing that is set, and an empty port, leave the defaults; a port that is no number is zero.
defaults_test :
    (config_load_from_env (record unset { relay_port = some [] }) 0 0).server_port ≡ 9104
unfolding config_load_from_env given
defaults_test = refl

no_number_test :
    (config_load_from_env (record unset { relay_port = some (codes "x1") }) 0 0).server_port ≡ 0
unfolding config_load_from_env given codes skip_blank read_digits atoi_of
no_number_test = refl

long_text : IsText (b'a' ∷ replicate 62 b'b')
long_text = omega arith
