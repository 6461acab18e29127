-- ===== src/Extapi/Plugin/Ports.antt =====
-- Which ports of the plugin are open.
use nim_brokers.Prelude.{
  ℕ, ℤ, ◌==◌, ◌≡◌, ◌&&◌, ==_iff, refl, sym, ap, ◌∙◌, true, false, Bool-cases, inl, inr, Option,
  none, some, List, [], ◌∷◌, if◌then◌else◌, arith,
}
use nim_brokers.Extapi.Abi.{is_ok, Api, opened, refused, provided, closed, Trace, Host}
use nim_brokers.Extapi.Plugin.{
  Plugin, call, answered, open_port, close_port, names, provide_each, take_port, finish, wire,
  attach,
}

abbrev pub remove : ℕ → List ℕ → List ℕ
remove p [] = []
remove p (q ∷ qs) = if q == p then qs else q ∷ remove p qs

-- The ports that the host has opened and not closed, newest first.
unfoldable pub open_ports : Trace → List ℕ
open_ports [] = []
open_ports (opened ctx p ∷ t) = p ∷ open_ports t
open_ports (refused ctx rc ∷ t) = open_ports t
open_ports (provided p a rc ∷ t) = open_ports t
open_ports (closed p ∷ t) = remove p (open_ports t)

abbrev pub to_list : Option ℕ → List ℕ
to_list none = []
to_list (some p) = p ∷ []

-- The open ports are the one the plugin holds.
abbrev pub Owned : Plugin → Type 0
Owned s = open_ports s.trace ≡ to_list s.port

-- Neither the ports nor the emitter differ.
pub record SameWiring (s r : Plugin) : Type 0 where
  pub same_port : r.port ≡ s.port
  pub same_emitter : r.emitter ≡ s.emitter
  pub same_open : open_ports r.trace ≡ open_ports s.trace

provide_each-SameWiring :
    (host : Host) (p : ℕ) (apis : List Api) (s : Plugin)
    → SameWiring s (provide_each host p apis s).1
unfolding provide_each open_ports
provide_each-SameWiring host p [] s = record {
  same_port = refl;
  same_emitter = refl;
  same_open = refl;
}
provide_each-SameWiring host p (a ∷ apis) s =
    let rc = host.provide s.trace p a in
    let next = provide_each-SameWiring host p apis (call (provided p a rc) s) in
    elim (Bool-cases (is_ok rc)) [
      | inl y ↦ rw y (record {
        same_port = next.same_port;
        same_emitter = next.same_emitter;
        same_open = next.same_open;
      })
      | inr n ↦ rw n (record { same_port = refl; same_emitter = refl; same_open = refl })
    ]

-- The names that the port provides since it was opened, newest first.
unfoldable pub granted : ℕ → Trace → List Api
granted p [] = []
granted p (opened ctx q ∷ t) = if q == p then [] else granted p t
granted p (refused ctx rc ∷ t) = granted p t
granted p (provided q a rc ∷ t) =
    let rest = granted p t in if q == p && is_ok rc then a ∷ rest else rest
granted p (closed q ∷ t) = granted p t

abbrev rev_onto : List Api → List Api → List Api
rev_onto [] bs = bs
rev_onto (a ∷ apis) bs = rev_onto apis (a ∷ bs)

same : (p : ℕ) → (p == p) ≡ true
same p = ground arith

provide_each-granted :
    (host : Host) (p : ℕ) (apis : List Api) (s : Plugin)
    → is_ok (provide_each host p apis s).0 ≡ true
    → granted p (provide_each host p apis s).1.trace ≡ rev_onto apis (granted p s.trace)
unfolding provide_each granted
provide_each-granted host p [] s k = refl
provide_each-granted host p (a ∷ apis) s k =
    let rc = host.provide s.trace p a in
    elim (Bool-cases (is_ok rc)) [
      | inl y ↦ rw y (
          provide_each-granted host p apis (call (provided p a rc) s) (rw y at k)
          ∙ ap (rev_onto apis) (rw (same p, y)))
      | inr n ↦ let y : is_ok rc ≡ true = rw n at k in absurd (cc)
    ]

remove_second : (p q : ℕ) → remove q (p ∷ q ∷ []) ≡ p ∷ []
remove_second p q = elim (Bool-cases (p == q)) [
  | inl e ↦ rw e (ap (λ x. x ∷ []) (sym ((==_iff p q).0 e)))
  | inr n ↦ rw (n, same q)
]

-- The new port is the newer of two until the old one is closed.
close_port-remove :
    (p : ℕ) (old emitter : Option ℕ) (t : Trace)
    → open_ports t ≡ p ∷ to_list old
    → open_ports (close_port old (record { port = some p; emitter = emitter; trace = t })).trace
      ≡ p ∷ []
unfolding open_ports
close_port-remove p none emitter t o = o
close_port-remove p (some q) emitter t o = ap (remove q) o ∙ remove_second p q

-- A port is held, the emitter sends on it, it alone is open, and it provides the four names.
pub record Wired (r : Plugin) : Type 0 where
  pub held : ℕ
  pub port_held : r.port ≡ some held
  pub emitter_held : r.emitter ≡ some held
  pub open_held : open_ports r.trace ≡ held ∷ []
  pub names_held : granted held r.trace ≡ rev_onto names []

close_port-granted :
    (p : ℕ) (old : Option ℕ) (s : Plugin) → granted p (close_port old s).trace ≡ granted p s.trace
unfolding granted
close_port-granted p none s = refl
close_port-granted p (some q) s = refl

close_port-kept :
    (old : Option ℕ) (s : Plugin)
    → ((close_port old s).port ≡ s.port) × ((close_port old s).emitter ≡ s.emitter)
close_port-kept none s = (refl, refl)
close_port-kept (some q) s = (refl, refl)

pub remove_first : (p : ℕ) (qs : List ℕ) → remove p (p ∷ qs) ≡ qs
remove_first p qs = rw (same p)

module _ (ctx p : ℕ) (s r : Plugin) (o : Owned s)
    (kept : SameWiring (call (opened ctx p) s) r) where
  take_port-Wired : granted p r.trace ≡ rev_onto names [] → Wired (take_port p r)
  unfolding open_ports
  take_port-Wired g =
      let next : Plugin = record r { port = some p; emitter = some p } in
      record {
        held = p;
        port_held = (close_port-kept r.port next).0;
        emitter_held = (close_port-kept r.port next).1;
        open_held =
            close_port-remove p r.port (some p) r.trace
              (kept.same_open ∙ ap (λ qs. p ∷ qs) (o ∙ ap to_list (sym kept.same_port)));
        names_held = close_port-granted p r.port next ∙ g;
      }

  close_port-SameWiring : SameWiring s (close_port (some p) r)
  unfolding open_ports
  close_port-SameWiring = record {
    same_port = kept.same_port;
    same_emitter = kept.same_emitter;
    same_open = ap (remove p) kept.same_open ∙ remove_first p (open_ports s.trace);
  }

-- How an attempt to attach ends, by its status.
abbrev Attempt : Plugin → ℤ × Plugin → Type 0
Attempt s (rc, r) = (is_ok rc ≡ false → SameWiring s r) × (is_ok rc ≡ true → Wired r)

finish-Attempt :
    (ctx p : ℕ) (s : Plugin) (q : ℤ × Plugin)
    → Owned s
    → SameWiring (call (opened ctx p) s) q.1
    → (is_ok q.0 ≡ true → granted p q.1.trace ≡ rev_onto names [])
    → Attempt s (finish p q)
finish-Attempt ctx p s (rc, r) o kept g = elim (Bool-cases (is_ok rc)) [
  | inl y ↦ rw y (λ n. absurd (cc), λ h. take_port-Wired ctx p s r o kept (g y))
  | inr n ↦ rw n (λ h. close_port-SameWiring ctx p s r o kept, λ y. absurd (cc))
]

wire-Attempt :
    (host : Host) (ctx : ℕ) (s : Plugin) (a : ℤ × ℕ)
    → Owned s
    → Attempt s (wire host (answered ctx a s))
unfolding open_ports granted
wire-Attempt host ctx s (rc, p) o =
    let start = call (opened ctx p) s in
    elim (Bool-cases (is_ok rc)) [
      | inl y ↦ rw y (
          finish-Attempt ctx p s (provide_each host p names start) o
            (provide_each-SameWiring host p names start)
            (λ h. provide_each-granted host p names start h ∙ ap (rev_onto names) (rw (same p))))
      | inr n ↦ rw n (
        λ h. record { same_port = refl; same_emitter = refl; same_open = refl },
        λ h. absurd (cc),
      )
    ]

-- An attempt to attach that does not return BROKER_EXT_OK, by a plugin whose open ports are the one
-- it holds, leaves the port held, the emitter and the open ports as they were.
pub attach-failed :
    (host : Host) (ctx : ℕ) (s : Plugin)
    → Owned s
    → is_ok (attach host ctx s).0 ≡ false
    → SameWiring s (attach host ctx s).1
unfolding attach open_port
attach-failed host ctx s o n = (wire-Attempt host ctx s (host.open_at s.trace ctx) o).0 n

-- After an attempt to attach that returns BROKER_EXT_OK, by a plugin whose open ports are the one it
-- holds, the plugin holds a port that its emitter sends on, that is the only one open and that
-- provides just the four names.
pub attach-Wired :
    (host : Host) (ctx : ℕ) (s : Plugin)
    → Owned s
    → is_ok (attach host ctx s).0 ≡ true
    → Wired (attach host ctx s).1
unfolding attach open_port
attach-Wired host ctx s o y = (wire-Attempt host ctx s (host.open_at s.trace ctx) o).1 y
