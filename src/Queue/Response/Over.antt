-- ===== src/Queue/Response/Over.antt =====
-- What the stages say of a slot on the free-list, and of requests that are over.
use nim_brokers.Prelude.{ℕ}
use nim_brokers.Queue.Response.{
  ResponseState, empty, writing, ready, abandoned, provider_gone, abandoned_writing, Requester,
  absent, popped, loaded, stored, sending, waiting, reading, releasing, finished, Provider, unsent,
  queued, at_work, reserved, filled, handing_back, through,
}
use nim_brokers.Queue.Response.Stages.{
  InertR, InertP, SendR, FreshR, BusyR, BusyP, IsUnsent, IsAbsent,
}

-- The provider is not between its reservation of the slot and its release.
abbrev pub KeepsOffP : Provider → Type 0
KeepsOffP (reserved g) = ⊥
KeepsOffP (filled g) = ⊥
KeepsOffP handing_back = ⊥
KeepsOffP _ = Unit

pub InertP-off : (n : ℕ) (p : Provider) → InertP n p → KeepsOffP p
InertP-off n unsent h = tt
InertP-off n (queued g) h = tt
InertP-off n (at_work g) h = tt
InertP-off n through h = tt
InertP-off n (reserved g) h = absurd h
InertP-off n (filled g) h = absurd h
InertP-off n handing_back h = absurd h

pub unsent-InertP : (n : ℕ) (p : Provider) → IsUnsent p → InertP n p
unsent-InertP n unsent h = tt
unsent-InertP n (queued g) h = absurd h
unsent-InertP n (at_work g) h = absurd h
unsent-InertP n through h = absurd h
unsent-InertP n (reserved g) h = absurd h
unsent-InertP n (filled g) h = absurd h
unsent-InertP n handing_back h = absurd h

module _ {A : Type 0} where
  -- The requester is before its claim, in its wait or through.
  abbrev pub KeepsOffR : Requester A → Type 0
  KeepsOffR absent = Unit
  KeepsOffR (waiting w g) = Unit
  KeepsOffR (finished o) = Unit
  KeepsOffR _ = ⊥

  -- The request is over for both parties, or not begun.
  abbrev pub IsOver : Requester A → Provider → Type 0
  IsOver absent p = Unit
  IsOver (finished o) unsent = Unit
  IsOver (finished o) through = Unit
  IsOver _ _ = ⊥

  pub InertR-off : (answer : ℕ → A) (n : ℕ) (r : Requester A) → InertR answer n r → KeepsOffR r
  InertR-off answer n absent h = tt
  InertR-off answer n (waiting w g) h = tt
  InertR-off answer n (finished o) h = tt
  InertR-off answer n popped h = absurd h
  InertR-off answer n (loaded v) h = absurd h
  InertR-off answer n stored h = absurd h
  InertR-off answer n (sending g) h = absurd h
  InertR-off answer n reading h = absurd h
  InertR-off answer n (releasing o) h = absurd h

  pub absent-InertR : (answer : ℕ → A) (n : ℕ) (r : Requester A) → IsAbsent r → InertR answer n r
  absent-InertR answer n absent h = tt
  absent-InertR answer n (waiting w g) h = absurd h
  absent-InertR answer n (finished o) h = absurd h
  absent-InertR answer n popped h = absurd h
  absent-InertR answer n (loaded v) h = absurd h
  absent-InertR answer n stored h = absurd h
  absent-InertR answer n (sending g) h = absurd h
  absent-InertR answer n reading h = absurd h
  absent-InertR answer n (releasing o) h = absurd h

  -- Each party of a request whose slot is in use has something to do.
  pub FreshR-not_over :
      (answer : ℕ → A) (g : ℕ) (r : Requester A) (p : Provider) → FreshR answer g r → IsOver r p → ⊥
  FreshR-not_over answer g popped p h o = o
  FreshR-not_over answer g (loaded v) p h o = o
  FreshR-not_over answer g absent p h o = h
  FreshR-not_over answer g stored p h o = h
  FreshR-not_over answer g (sending v) p h o = h
  FreshR-not_over answer g (waiting w v) p h o = h
  FreshR-not_over answer g reading p h o = h
  FreshR-not_over answer g (releasing v) p h o = h
  FreshR-not_over answer g (finished v) p h o = h

  pub SendR-not_over :
      (answer : ℕ → A) (g : ℕ) (r : Requester A) (p : Provider) → SendR answer g r → IsOver r p → ⊥
  SendR-not_over answer g stored p h o = o
  SendR-not_over answer g (sending v) p h o = o
  SendR-not_over answer g (releasing v) p h o = o
  SendR-not_over answer g popped p h o = h
  SendR-not_over answer g (loaded v) p h o = h
  SendR-not_over answer g absent p h o = h
  SendR-not_over answer g (waiting w v) p h o = h
  SendR-not_over answer g reading p h o = h
  SendR-not_over answer g (finished v) p h o = h

  pub Busy-not_over :
      (answer : ℕ → A) (a : ResponseState) (v : A) (g : ℕ) (r : Requester A) (p : Provider)
      → BusyR answer a g r
      → BusyP answer a v g p
      → IsOver r p
      → ⊥
  Busy-not_over answer empty v g (finished o) p h b i = h
  Busy-not_over answer writing v g (finished o) p h b i = h
  Busy-not_over answer ready v g (finished o) p h b i = h
  Busy-not_over answer provider_gone v g (finished o) p h b i = h
  Busy-not_over answer abandoned v g (finished o) unsent h b i = b
  Busy-not_over answer abandoned v g (finished o) through h b i = b
  Busy-not_over answer abandoned v g (finished o) (queued x) h b i = i
  Busy-not_over answer abandoned v g (finished o) (at_work x) h b i = i
  Busy-not_over answer abandoned v g (finished o) (reserved x) h b i = i
  Busy-not_over answer abandoned v g (finished o) (filled x) h b i = i
  Busy-not_over answer abandoned v g (finished o) handing_back h b i = i
  Busy-not_over answer abandoned_writing v g (finished o) unsent h b i = b
  Busy-not_over answer abandoned_writing v g (finished o) through h b i = b
  Busy-not_over answer abandoned_writing v g (finished o) (queued x) h b i = i
  Busy-not_over answer abandoned_writing v g (finished o) (at_work x) h b i = i
  Busy-not_over answer abandoned_writing v g (finished o) (reserved x) h b i = i
  Busy-not_over answer abandoned_writing v g (finished o) (filled x) h b i = i
  Busy-not_over answer abandoned_writing v g (finished o) handing_back h b i = i
  Busy-not_over answer empty v g absent p h b i = h
  Busy-not_over answer writing v g absent p h b i = h
  Busy-not_over answer ready v g absent p h b i = h
  Busy-not_over answer abandoned v g absent p h b i = h
  Busy-not_over answer provider_gone v g absent p h b i = h
  Busy-not_over answer abandoned_writing v g absent p h b i = h
  Busy-not_over answer a v g popped p h b i = i
  Busy-not_over answer a v g (loaded x) p h b i = i
  Busy-not_over answer a v g stored p h b i = i
  Busy-not_over answer a v g (sending x) p h b i = i
  Busy-not_over answer a v g (waiting w x) p h b i = i
  Busy-not_over answer a v g reading p h b i = i
  Busy-not_over answer a v g (releasing x) p h b i = i
