-- ===== src/Torpedo/Session/Detach.antt =====
-- `unregisterCallbacks` takes off all of a side's listeners.
use nim_brokers.Prelude.{
  ℕ, zero, suc, true, ◌&&◌, ◌==◌, ◌≡◌, refl, sym, ap, ◌∙◌, inl, inr, if◌then◌else◌, Bool-cases,
  arith,
}
use nim_brokers.Torpedo.Session.{
  red, blue, Kind, remark, shot, match, volley, restored, Trace, Library, Handles,
}
use nim_brokers.Torpedo.Session.Setup.{off, unregister_callbacks}
use nim_brokers.Torpedo.Session.Main.{cleanup}
use nim_brokers.Torpedo.Session.Listeners.{
  same_kind, handle_of, Holds, Holds-cons, Runs, Runs-bind, Never, Runs-map,
}

-- One kind's handle set to 0.
abbrev clear : Kind → (Kind → ℕ) → Kind → ℕ
clear kind r k = if same_kind kind k then 0 else r k

same_kind-eq : (k j : Kind) → same_kind k j ≡ true → k ≡ j
same_kind-eq k j e = ground arith

-- Taking off the listener that is attached under `n` leaves none of its kind.
cleared :
    (r : Kind → ℕ) (kind k : Kind) (n m : ℕ)
    → r kind ≡ suc n
    → m ≡ r k
    → (if same_kind kind k && suc n == m then 0 else m) ≡ clear kind r k
cleared r kind k n m e p = elim (Bool-cases (same_kind kind k)) [
  | inl same ↦
      let m_is : m ≡ suc n = p ∙ ap r (sym (same_kind-eq kind k same)) ∙ e in
      rw (same, m_is) (ground arith)
  | inr other ↦ rw other p
]

-- If none of the kind is attached, there is nothing to take off.
uncleared : (r : Kind → ℕ) (kind k : Kind) (m : ℕ) → r kind ≡ 0 → m ≡ r k → m ≡ clear kind r k
uncleared r kind k m e p = elim (Bool-cases (same_kind kind k)) [
  | inl same ↦ rw same (p ∙ ap r (sym (same_kind-eq kind k same)) ∙ e)
  | inr other ↦ rw other p
]

module _ (lib : Library) where
  off_red :
      {r b : Kind → ℕ} (kind : Kind) (n : ℕ)
      → r kind ≡ n
      → Runs Unit (Holds true r b) (Holds true (clear kind r) b) Never (off lib red kind n)
  off_red {r} kind zero e = record {
    at = λ s p. record {
      stage = p.stage;
      on_red = λ k. uncleared r kind k _ e (p.on_red k);
      on_blue = p.on_blue;
      safe = p.safe;
    };
  }
  off_red {r} kind (suc n) e = record {
    at = λ s p. record {
      stage = p.stage;
      on_red = λ k. cleared r kind k n _ e (p.on_red k);
      on_blue = p.on_blue;
      safe = p.safe;
    };
  }

  off_blue :
      {r b : Kind → ℕ} (kind : Kind) (n : ℕ)
      → b kind ≡ n
      → Runs Unit (Holds true r b) (Holds true r (clear kind b)) Never (off lib blue kind n)
  off_blue {b} kind zero e = record {
    at = λ s p. record {
      stage = p.stage;
      on_red = p.on_red;
      on_blue = λ k. uncleared b kind k _ e (p.on_blue k);
      safe = p.safe;
    };
  }
  off_blue {b} kind (suc n) e = record {
    at = λ s p. record {
      stage = p.stage;
      on_red = p.on_red;
      on_blue = λ k. cleared b kind k n _ e (p.on_blue k);
      safe = p.safe;
    };
  }

abbrev pub nothing : Kind → ℕ
nothing k = 0

cleared_all :
    (r : Kind → ℕ) (k : Kind) → clear volley (clear match (clear shot (clear remark r))) k ≡ 0
cleared_all r remark = refl
cleared_all r shot = refl
cleared_all r match = refl
cleared_all r volley = refl

module _ (lib : Library) where
  unregister_red :
      {b : Kind → ℕ} (h : Handles)
      → Runs Unit
          (Holds true (handle_of h) b)
          (Holds true nothing b)
          Never
          (unregister_callbacks lib red h)
  unfolding unregister_callbacks
  unregister_red h = Runs-bind (off_red lib remark h.remark refl) λ _.
      Runs-bind (off_red lib shot h.shot refl) λ _. Runs-bind (off_red lib match h.match refl) λ _.
        Runs-map (off_red lib volley h.volley refl)
          (λ t p. record {
            stage = p.stage;
            on_red = λ k. p.on_red k ∙ cleared_all (handle_of h) k;
            on_blue = p.on_blue;
            safe = p.safe;
          })
          (λ t n. n)

  unregister_blue :
      {r : Kind → ℕ} (h : Handles)
      → Runs Unit
          (Holds true r (handle_of h))
          (Holds true r nothing)
          Never
          (unregister_callbacks lib blue h)
  unfolding unregister_callbacks
  unregister_blue h = Runs-bind (off_blue lib remark h.remark refl) λ _.
      Runs-bind (off_blue lib shot h.shot refl) λ _.
        Runs-bind (off_blue lib match h.match refl) λ _.
          Runs-map (off_blue lib volley h.volley refl)
            (λ t p. record {
              stage = p.stage;
              on_red = p.on_red;
              on_blue = λ k. p.on_blue k ∙ cleared_all (handle_of h) k;
              safe = p.safe;
            })
            (λ t n. n)

  abbrev pub AttachedAs : Handles × Handles → Trace → Type 0
  AttachedAs h = Holds true (handle_of h.0) (handle_of h.1)

  pub cleanup-Runs :
      (h : Handles × Handles)
      → Runs Unit (AttachedAs h) (Holds true nothing nothing) Never (cleanup lib h)
  cleanup-Runs h =
      Runs-bind (record { at = λ s p. Holds-cons restored tt p })
        λ _. Runs-bind (unregister_red h.0) λ _. unregister_blue h.1
