-- ===== src/Extapi/Tests.antt =====
-- Runs of the codec library and of the plugin, and their theorems at concrete inputs.
use nim_brokers.Prelude.{ℕ, ◌+◌, ◌%◌, ◌≡◌, refl, some, none, [], ◌∷◌, Bytes, codes, length, arith}
use nim_brokers.Prelude.{Bool, true, false, ◌==◌, dec_onto, dec, if◌then◌else◌}
use nim_brokers.Extapi.Abi.{
  broker_ext_ok, broker_ext_bad_arg, broker_ext_already_provided, Api, fetch_blob, store_blob,
  compact, opened, provided, closed, Host,
}
use nim_brokers.Extapi.Plugin.{
  Plugin, attach, control_all, storage_plugin_detach, loaded, enter, attach_on, detach, open_port,
  provide_each,
}
use nim_brokers.Extapi.Plugin.Ports.{open_ports, Owned}
use nim_brokers.Extapi.Plugin.Balance.{control_all-Owned, loaded-Owned, control_all-detach}
use nim_brokers.Extapi.Plugin.Storage.{Reply, err, kilo, compact-quiet, compact-dropped}
use nim_brokers.Extapi.Plugin.Storage
use nim_brokers.Prelude.{◌&&◌}
use nim_brokers.Extapi.Abi.{is_ok}
use nim_brokers.Extapi.HostLib
use nim_brokers.Extapi.HostLib.{at_start}
use nim_brokers.Extapi.HostLib.Passes.{storagelib, code_of, main-storagelib}
use nim_brokers.Extapi.Codec.{codec_crc, sum_loop, codec_slow_sum}
use nim_brokers.Extapi.Codec.Laws.{horner, codec_crc-horner}

abbrev message : Bytes
message = codes "brokers"

codec_crc-run : codec_crc 4294967295 (1 ∷ 2 ∷ []) 2 ≡ some 4294966368
unfolding codec_crc
codec_crc-run = refl

codec_crc-overrun : codec_crc 0 (1 ∷ []) 2 ≡ none
unfolding codec_crc
codec_crc-overrun = refl

codec_slow_sum-run : codec_slow_sum (200 ∷ 100 ∷ []) 2 ≡ some (0, 300)
unfolding codec_slow_sum sum_loop
codec_slow_sum-run = refl

codec_crc-horner_example :
    codec_crc 4294967295 message (length message) ≡ some (horner 4294967295 message % 4294967296)
codec_crc-horner_example = codec_crc-horner message 4294967295 (omega arith)

abbrev is_compact : Api → Bool
is_compact compact = true
is_compact _ = false

-- A host that provides every name; handles count up, and context 0 is refused.
abbrev strict : Host
strict = record {
  open_at = λ t ctx. (if ctx == 0 then broker_ext_bad_arg else broker_ext_ok, 1 + length t);
  provide = λ t p a. broker_ext_ok;
}

-- One where another port is the source of `compact`.
abbrev narrow : Host
narrow = record strict {
  provide = λ t p a. if is_compact a then broker_ext_already_provided else broker_ext_ok;
}

attach-run :
    (attach narrow 1 loaded).1.trace
    ≡ closed 1
      ∷ provided 1 compact broker_ext_already_provided
      ∷ provided 1 store_blob broker_ext_ok
      ∷ provided 1 fetch_blob broker_ext_ok
      ∷ opened 1 1
      ∷ []
unfolding attach open_port provide_each
attach-run = refl

-- A plugin that a host has wired once.
abbrev entered : Plugin
entered = control_all strict (enter ∷ []) loaded

entered-Owned : Owned entered
entered-Owned = control_all-Owned strict (enter ∷ []) loaded loaded-Owned

control_all-detach_example :
    let s = control_all strict (enter ∷ attach_on 0 ∷ attach_on 5 ∷ detach ∷ enter ∷ []) loaded in
    let r = (storage_plugin_detach s).1 in Owned s × (open_ports r.trace ≡ []) × (r.port ≡ none)
control_all-detach_example =
    control_all-detach strict (enter ∷ attach_on 0 ∷ attach_on 5 ∷ detach ∷ enter ∷ [])

abbrev never : ℕ → Bool
never i = false

abbrev in_round_150 : ℕ → Bool
in_round_150 i = i == 150

store_blob-run : Storage.store_blob (codes "a") (codes "xyz") ≡ Storage.ok (codes "etag-a-3")
unfolding Storage.store_blob dec_onto dec
store_blob-run = refl

-- The host answers that another port is the source of the name.
main-storagelib_example :
    code_of (HostLib.main (storagelib broker_ext_ok broker_ext_already_provided) (at_start false))
    ≡ (if is_ok broker_ext_ok && is_ok broker_ext_already_provided then some 0 else none)
main-storagelib_example = main-storagelib broker_ext_ok broker_ext_already_provided
