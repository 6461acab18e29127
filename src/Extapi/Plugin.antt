-- ===== src/Extapi/Plugin.antt =====
-- examples/extapi/cpp_plugin/plugin.cpp, with the class `Port` that brokers/internal/ext_codegen_hpp.nim
-- writes into storage_ext.hpp. The plugin's globals are a state; each entry point holds the port's
-- mutex from its first line to its last, so that the calls follow one another.
pub mod Storage
pub mod Ports
pub mod Balance
use nim_brokers.Prelude.{ℕ, ℤ, List, [], ◌∷◌, Option, none, some, if◌then◌else◌}
use nim_brokers.Extapi.Abi.{
  broker_ext_ok, broker_ext_bad_arg, is_ok, Api, fetch_blob, store_blob, compact, compact_hint,
  HostCall, opened, refused, provided, closed, Trace, Host,
}

-- `gPort`, the `emitter_` of `gImpl` by the port it emits on, and the host's calls.
pub record Plugin : Type 0 where
  pub port : Option ℕ
  pub emitter : Option ℕ
  pub trace : Trace

abbrev pub call : HostCall → Plugin → Plugin
call c s = record s { trace = c ∷ s.trace }

-- Port::open. A port that the host refuses is none.
abbrev answered : ℕ → ℤ × ℕ → Plugin → Option ℕ × Plugin
answered ctx (rc, p) s =
    if is_ok rc then (some p, call (opened ctx p) s) else (none, call (refused ctx rc) s)

unfoldable pub open_port : Host → ℕ → Plugin → Option ℕ × Plugin
open_port host ctx s = answered ctx (host.open_at s.trace ctx) s

-- Port::close and the destructor, which closes a port that has not been moved from.
abbrev pub close_port : Option ℕ → Plugin → Plugin
close_port none s = s
close_port (some p) s = call (closed p) s

abbrev pub names : List Api
names = fetch_blob ∷ store_blob ∷ compact ∷ compact_hint ∷ []

-- The loop over the names, which ends at the first that is refused, with its status.
unfoldable pub provide_each : Host → ℕ → List Api → Plugin → ℤ × Plugin
provide_each host p [] s = (broker_ext_ok, s)
provide_each host p (a ∷ apis) s =
    let rc = host.provide s.trace p a in
    let rest = provide_each host p apis (call (provided p a rc) s) in
    if is_ok rc then rest else (rc, call (provided p a rc) s)

-- setEmitter, then the assignment to `gPort`, which destroys the port it held.
abbrev pub take_port : ℕ → Plugin → Plugin
take_port p s = close_port s.port (record s { port = some p; emitter = some p })

-- An early return destroys the local port.
abbrev pub finish : ℕ → ℤ × Plugin → ℤ × Plugin
finish p (rc, s) = if is_ok rc then (broker_ext_ok, take_port p s) else (rc, close_port (some p) s)

abbrev pub wire : Host → Option ℕ × Plugin → ℤ × Plugin
wire host (none, s) = (broker_ext_bad_arg, s)
wire host (some p, s) = finish p (provide_each host p names s)

-- `attach` and `storage_plugin_attach`.
unfoldable pub attach : Host → ℕ → Plugin → ℤ × Plugin
attach host ctx s = wire host (open_port host ctx s)

unfoldable pub broker_ext_plugin_entry : Host → Plugin → ℤ × Plugin
broker_ext_plugin_entry host s = attach host 1 s

unfoldable pub storage_plugin_detach : Plugin → ℤ × Plugin
storage_plugin_detach s = (broker_ext_ok, close_port s.port (record s { port = none }))

-- What the host can ask of the library, in any order.
pub data Control : Type 0 where
  enter : Control
  attach_on : ℕ → Control
  detach : Control

abbrev pub control : Host → Control → Plugin → ℤ × Plugin
control host enter s = broker_ext_plugin_entry host s
control host (attach_on ctx) s = attach host ctx s
control host detach s = storage_plugin_detach s

unfoldable pub control_all : Host → List Control → Plugin → Plugin
control_all host [] s = s
control_all host (c ∷ cs) s = control_all host cs (control host c s).1

-- The library as it is loaded.
abbrev pub loaded : Plugin
loaded = record { port = none; emitter = none; trace = [] }
