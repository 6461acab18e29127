-- ===== src/Extapi/Plugin/Balance.antt =====
-- No port is ever left behind.
use nim_brokers.Prelude.{
  ℕ, ◌≡◌, refl, sym, ap, ◌∙◌, Bool-cases, inl, inr, Option, none, some, List, [], ◌∷◌,
}
use nim_brokers.Extapi.Abi.{is_ok, Trace, Host}
use nim_brokers.Extapi.Plugin.Ports.{
  to_list, open_ports, remove_first, Owned, attach-failed, attach-Wired,
}
use nim_brokers.Extapi.Plugin.{
  Plugin, close_port, attach, broker_ext_plugin_entry, storage_plugin_detach, Control, enter,
  attach_on, detach, control, control_all, loaded,
}

attach-Owned : (host : Host) (ctx : ℕ) (s : Plugin) → Owned s → Owned (attach host ctx s).1
attach-Owned host ctx s o = elim (Bool-cases (is_ok (attach host ctx s).0)) [
  | inl y ↦ let w = attach-Wired host ctx s o y in w.open_held ∙ ap to_list (sym w.port_held)
  | inr n ↦ let f = attach-failed host ctx s o n in f.same_open ∙ o ∙ ap to_list (sym f.same_port)
]

closed_none :
    (old emitter : Option ℕ) (t : Trace)
    → open_ports t ≡ to_list old
    → let r = close_port old (record { port = none; emitter = emitter; trace = t }) in
      (open_ports r.trace ≡ []) × (r.port ≡ none)
unfolding open_ports
closed_none none emitter t o = (o, refl)
closed_none (some p) emitter t o = (rw (o, remove_first p []), refl)

detach_lem :
    (s : Plugin)
    → Owned s
    → let r = (storage_plugin_detach s).1 in (open_ports r.trace ≡ []) × (r.port ≡ none)
unfolding storage_plugin_detach
detach_lem s o = closed_none s.port s.emitter s.trace o

control-Owned : (host : Host) (c : Control) (s : Plugin) → Owned s → Owned (control host c s).1
unfolding broker_ext_plugin_entry
control-Owned host enter s o = attach-Owned host 1 s o
control-Owned host (attach_on ctx) s o = attach-Owned host ctx s o
control-Owned host detach s o = let (shut, gone) = detach_lem s o in shut ∙ ap to_list (sym gone)

pub control_all-Owned :
    (host : Host) (cs : List Control) (s : Plugin) → Owned s → Owned (control_all host cs s)
unfolding control_all
control_all-Owned host [] s o = o
control_all-Owned host (c ∷ cs) s o =
    control_all-Owned host cs (control host c s).1 (control-Owned host c s o)

pub loaded-Owned : Owned loaded
unfolding open_ports
loaded-Owned = refl

-- Whatever a host asks of the library from its loading on, in whatever order and with whatever
-- answers of the host's own, the ports it has open are the one the plugin holds, if it holds any;
-- and a detach on top of that leaves none open and none held.
pub control_all-detach :
    (host : Host) (cs : List Control)
    → let s = control_all host cs loaded in
      let r = (storage_plugin_detach s).1 in Owned s × (open_ports r.trace ≡ []) × (r.port ≡ none)
control_all-detach host cs =
    let o = control_all-Owned host cs loaded loaded-Owned in
    let (shut, gone) = detach_lem (control_all host cs loaded) o in (o, shut, gone)
