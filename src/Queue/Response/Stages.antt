-- ===== src/Queue/Response/Stages.antt =====
-- The stages of a slot: on the free-list, popped, armed and not yet sent, in use; and what each
-- party can then be at.
use nim_brokers.Prelude.{ℕ, suc, ◌<◌, ◌≡◌, Option, none, some}
use nim_brokers.Queue.Response.{
  ResponseState, empty, writing, ready, abandoned, provider_gone, abandoned_writing, pack_control,
  control_gen, control_state, Requester, absent, popped, loaded, stored, sending, waiting, reading,
  releasing, finished, Provider, unsent, queued, at_work, reserved, filled, handing_back, through,
  State,
}

module _ {A : Type 0} (answer : ℕ → A) where
  -- What request `n` has read is the provider's answer to it.
  abbrev pub Reads : ℕ → Option A → Type 0
  Reads n none = Unit
  Reads n (some v) = v ≡ answer n

  -- Outside all accesses that release.
  abbrev pub InertR : ℕ → Requester A → Type 0
  InertR n absent = Unit
  InertR n (waiting w g) = g ≡ n
  InertR n (finished o) = Reads n o
  InertR n _ = ⊥

  abbrev pub EndedR : ℕ → Requester A → Type 0
  EndedR n absent = Unit
  EndedR n (finished o) = Reads n o
  EndedR n _ = ⊥

  -- While the slot is on the free-list, for the last request that had it.
  abbrev pub LeftR : ResponseState → ℕ → Requester A → Type 0
  LeftR abandoned n r = InertR n r
  LeftR abandoned_writing n r = InertR n r
  LeftR _ n r = EndedR n r

  abbrev pub FreshR : ℕ → Requester A → Type 0
  FreshR g popped = Unit
  FreshR g (loaded v) = control_gen v ≡ g
  FreshR g _ = ⊥

  abbrev pub SendR : ℕ → Requester A → Type 0
  SendR n stored = Unit
  SendR n (sending g) = g ≡ n
  SendR n (releasing none) = Unit
  SendR n _ = ⊥

  abbrev pub WaitR : ℕ → Requester A → Type 0
  WaitR n (waiting w g) = g ≡ n
  WaitR n _ = ⊥

  abbrev pub AbandonedR : ℕ → Requester A → Type 0
  AbandonedR n (waiting w g) = g ≡ n
  AbandonedR n (finished o) = Reads n o
  AbandonedR n _ = ⊥

  abbrev pub ReadyR : ℕ → Requester A → Type 0
  ReadyR n (waiting w g) = g ≡ n
  ReadyR n reading = Unit
  ReadyR n (releasing o) = Reads n o
  ReadyR n _ = ⊥

  abbrev pub GoneR : ℕ → Requester A → Type 0
  GoneR n (waiting w g) = g ≡ n
  GoneR n (releasing o) = Reads n o
  GoneR n _ = ⊥

  -- While the slot is in use.
  abbrev pub BusyR : ResponseState → ℕ → Requester A → Type 0
  BusyR empty n r = WaitR n r
  BusyR writing n r = WaitR n r
  BusyR ready n r = ReadyR n r
  BusyR abandoned n r = AbandonedR n r
  BusyR provider_gone n r = GoneR n r
  BusyR abandoned_writing n r = AbandonedR n r

abbrev pub InertP : ℕ → Provider → Type 0
InertP n unsent = Unit
InertP n (queued g) = g ≡ n
InertP n (at_work g) = g ≡ n
InertP n through = Unit
InertP n _ = ⊥

abbrev pub QuietP : Provider → Type 0
QuietP unsent = Unit
QuietP through = Unit
QuietP _ = ⊥

abbrev pub LeftP : ResponseState → ℕ → Provider → Type 0
LeftP provider_gone n p = InertP n p
LeftP _ n p = QuietP p

abbrev pub IsUnsent : Provider → Type 0
IsUnsent unsent = Unit
IsUnsent _ = ⊥

abbrev pub BeforeP : ℕ → Provider → Type 0
BeforeP n (queued g) = g ≡ n
BeforeP n (at_work g) = g ≡ n
BeforeP n _ = ⊥

abbrev pub AbandonedP : ℕ → Provider → Type 0
AbandonedP n (queued g) = g ≡ n
AbandonedP n (at_work g) = g ≡ n
AbandonedP n handing_back = Unit
AbandonedP n _ = ⊥

abbrev pub GoneP : ℕ → Provider → Type 0
GoneP n (queued g) = g ≡ n
GoneP n (at_work g) = g ≡ n
GoneP n through = Unit
GoneP n _ = ⊥

abbrev pub CutOffP : ℕ → Provider → Type 0
CutOffP n (reserved g) = g ≡ n
CutOffP n (filled g) = g ≡ n
CutOffP n handing_back = Unit
CutOffP n _ = ⊥

module _ {A : Type 0} (answer : ℕ → A) where
  abbrev pub WritingP : A → ℕ → Provider → Type 0
  WritingP payload n (reserved g) = g ≡ n
  WritingP payload n (filled g) = (g ≡ n) × (payload ≡ answer n)
  WritingP payload n _ = ⊥

  abbrev pub ReadyP : A → ℕ → Provider → Type 0
  ReadyP payload n through = payload ≡ answer n
  ReadyP payload n _ = ⊥

  abbrev pub BusyP : ResponseState → A → ℕ → Provider → Type 0
  BusyP empty payload n p = BeforeP n p
  BusyP writing payload n p = WritingP payload n p
  BusyP ready payload n p = ReadyP payload n p
  BusyP abandoned payload n p = AbandonedP n p
  BusyP provider_gone payload n p = GoneP n p
  BusyP abandoned_writing payload n p = CutOffP n p

abbrev pub CanSend : ResponseState → Type 0
CanSend empty = Unit
CanSend abandoned = Unit
CanSend provider_gone = Unit
CanSend _ = ⊥

module _ {A : Type 0} (answer : ℕ → A) where
  pub data Stage (g : ℕ) (a : ResponseState) (s : State A) : Type 0 where
    left :
        s.free ≡ 1
        → s.claims ≡ g
        → LeftR answer a g (s.requesters g)
        → LeftP a g (s.providers g)
        → Stage g a s
    fresh :
        s.free ≡ 0
        → s.claims ≡ suc g
        → LeftR answer a g (s.requesters g)
        → LeftP a g (s.providers g)
        → FreshR answer g (s.requesters (suc g))
        → IsUnsent (s.providers (suc g))
        → Stage g a s
    armed :
        s.free ≡ 0
        → s.claims ≡ g
        → CanSend a
        → SendR answer g (s.requesters g)
        → IsUnsent (s.providers g)
        → Stage g a s
    busy :
        s.free ≡ 0
        → s.claims ≡ g
        → BusyR answer a g (s.requesters g)
        → BusyP answer a s.payload g (s.providers g)
        → Stage g a s

abbrev pub IsAbsent : {A : Type 0} → Requester A → Type 0
IsAbsent absent = Unit
IsAbsent _ = ⊥

abbrev pub Marked : Option ℕ → Type 0
Marked none = Unit
Marked (some v) = control_state v ≡ 0

module _ {A : Type 0} (answer : ℕ → A) where
  -- The word is of generation `g`, which is the last claim's, or the last but one's until the claim
  -- has stored its own.
  pub record Kept (s : State A) : Type 0 where
    pub gen : ℕ
    pub state : ResponseState
    pub word : s.control ≡ pack_control gen state
    pub stage : Stage answer gen state s
    pub early : (n : ℕ) → n < gen → InertR answer n (s.requesters n) × InertP n (s.providers n)
    pub late : (n : ℕ) → s.claims < n → IsAbsent (s.requesters n) × IsUnsent (s.providers n)
    pub marked : Marked s.marker
