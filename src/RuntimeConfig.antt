-- ===== src/RuntimeConfig.antt =====
-- src/runtime_config.c: the settings, from the environment or from src/config.h. A variable of the
-- environment is the list of its bytes, none of which is zero; `none` is one that is not set.
pub mod Port
pub mod Names
mod Checks
use stb_e_bpf.Base.{
  ℕ, ◌+◌, ◌-◌, ◌≡◌, Bool, ◌&&◌, ltb, Option, none, some, List, [], ◌∷◌, ◌++◌, if◌then◌else◌, length,
  take, replicate, codes,
}
use stb_e_bpf.Probe.Http.{atoi}

-- The defaults of src/config.h.
abbrev pub relay_server_ip : List ℕ
relay_server_ip = codes "10.115.69.95"

abbrev pub relay_server_port : ℕ
relay_server_port = 9104

abbrev pub default_probe_id : List ℕ
default_probe_id = codes "stb-tyson-01"

abbrev pub default_log_level : ℕ
default_log_level = 2

-- `struct stb_config`: its `char` arrays with all their bytes, its `int`s as 32-bit words.
pub record StbConfig : Type 0 where
  pub server_ip : List ℕ
  pub server_port : ℕ
  pub probe_id : List ℕ
  pub log_level : ℕ

pub record Env : Type 0 where
  pub relay_ip : Option (List ℕ)
  pub relay_port : Option (List ℕ)
  pub probe_id : Option (List ℕ)
  pub log_level : Option (List ℕ)

-- `strncpy(dst, s, size - 1)`: a short string is padded with zeroes, and the last byte of `dst`
-- is not written.
unfoldable pub strncpy_into : ℕ → ℕ → List ℕ → List ℕ
strncpy_into size last s = take (size - 1) s ++ (replicate (size - 1 - length s) 0 ++ (last ∷ []))

-- `if (v && v[0])`.
unfoldable pub given : {A : Type 0} → Option (List ℕ) → (List ℕ → A) → A → A
given none f default = default
given (some []) f default = default
given (some (c ∷ v)) f default = f (c ∷ v)

-- `config_load_from_env`, into a record on the stack; the two last bytes are what it held.
unfoldable pub config_load_from_env : Env → ℕ → ℕ → StbConfig
config_load_from_env env ip_last id_last = record {
  server_ip =
      given env.relay_ip (strncpy_into 64 ip_last) (strncpy_into 64 ip_last relay_server_ip);
  server_port = given env.relay_port atoi relay_server_port;
  probe_id =
      given env.probe_id (strncpy_into 64 id_last) (strncpy_into 64 id_last default_probe_id);
  log_level = given env.log_level atoi default_log_level;
}
