-- ===== src/Extapi/Abi.antt =====
-- brokers/broker_ext.h: the status codes of the plugin interface, and the part of a host's table
-- that a plugin's wiring calls.
use nim_brokers.Prelude.{ℕ, zero, suc, ℤ, pos, negsuc, Bool, true, false, List}

abbrev pub broker_ext_ok : ℤ
broker_ext_ok = pos 0

abbrev pub broker_ext_bad_arg : ℤ
broker_ext_bad_arg = negsuc 0

abbrev pub broker_ext_already_provided : ℤ
broker_ext_already_provided = negsuc 15

-- `rc == BROKER_EXT_OK`.
abbrev pub is_ok : ℤ → Bool
is_ok (pos zero) = true
is_ok (pos (suc n)) = false
is_ok (negsuc n) = false

-- The names of the `storage` plugin (events are not provided).
pub data Api : Type 0 where
  fetch_blob : Api
  store_blob : Api
  list_keys : Api
  compact : Api
  compact_hint : Api

-- A call that a host has answered. A port's handle is a number.
pub data HostCall : Type 0 where
  opened : ℕ → ℕ → HostCall
  refused : ℕ → ℤ → HostCall
  provided : ℕ → Api → ℤ → HostCall
  closed : ℕ → HostCall

-- The calls so far, newest first.
abbrev pub Trace : Type 0
Trace = List HostCall

-- A host answers in view of all the calls before. `open_at` answers with the status and the handle.
pub record Host : Type 0 where
  pub open_at : Trace → ℕ → ℤ × ℕ
  pub provide : Trace → ℕ → Api → ℤ
