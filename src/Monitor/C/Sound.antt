-- ===== src/Monitor/C/Sound.antt =====
-- What mylib.h promises of the arrays it hands over, and the loops over them.
use nim_brokers.Prelude.{
  ℕ, zero, suc, ◌+◌, ◌≤◌, ◌<◌, ◌≡◌, refl, ap, arith, ◌==◌, ==_iff, ℤ, Bool, true, false, List, [],
  ◌∷◌, Option, none, some, and_then, length, get_elem?, Bytes, dec_int,
}
use nim_brokers.Client.{M, ◌>>=◌, for_each, After, Runs, Runs-bind}
use nim_brokers.Monitor.Types.{AddDeviceSpec}
use nim_brokers.Monitor.C.Types.{
  Text, Array, Notice, discovered, batch, alerted, status_changed, Library, Owned,
}
use nim_brokers.Monitor.C.Callbacks.{
  World, tag, without, turns, ask, obtain, free, shutdown, item, loop, print_items, dispatch,
  sleep_ms, on_device_batch, counted_batch, quoted,
}

-- There are as many elements as the count says, at least.
abbrev pub FitsIn : {A : Type 0} → ℕ → Option (List A) → Type 0
FitsIn n none = n ≡ 0
FitsIn n (some xs) = n ≤ length xs

abbrev pub Fits : {A : Type 0} → Array A → Type 0
Fits a = FitsIn (turns a.count) a.items

abbrev NoticeFits : Notice → Type 0
NoticeFits (discovered id name kind addr) = Unit
NoticeFits (batch labels ids caps) = Fits labels × Fits ids × Fits caps
NoticeFits (alerted sensor device status ts) = Unit
NoticeFits (status_changed id name online ts) = Unit

abbrev pub NoticesFit : List (Bool × Notice) → Type 0
NoticesFit [] = Unit
NoticesFit ((b, n) ∷ ns) = NoticeFits n × NoticesFit ns

-- Every array of a result without an error, and of an event, is as long as its count says.
pub record IsSound {S : Type 0} (lib : Library S) : Type 0 where
  pub adds : (specs : List AddDeviceSpec) (s : S) → Fits (lib.add_device specs s).0.body
  pub lists : (s : S) → Fits (lib.list_devices s).0.body
  pub senses : (id : ℤ) (s : S) → Fits (lib.get_sensor_data id s).0.body.raw_data
  pub tags : (id : ℤ) (s : S) → Fits (lib.get_device_tags id s).0.body
  pub pauses : (ms : ℕ) (s : S) → NoticesFit (lib.pause ms s).0

get_elem?-some :
    {A : Type 0} (xs : List A) (i : ℕ) → i < length xs → (x : A) × (get_elem? xs i ≡ some x)
get_elem?-some [] i h = absurd (omega arith)
get_elem?-some (x ∷ xs) zero h = (x, refl)
get_elem?-some (x ∷ xs) (suc i) h = get_elem?-some xs i (omega arith)

FitsIn-some :
    {A : Type 0} (n : ℕ) (o : Option (List A)) (i : ℕ)
    → FitsIn n o
    → i < n
    → (x : A) × (and_then o (λ xs. get_elem? xs i) ≡ some x)
FitsIn-some n none i f h = absurd (let z : n ≡ 0 = f in omega arith)
FitsIn-some n (some xs) i f h = get_elem?-some xs i (omega arith)

without-head :
    {A : Type 0} (f : A → ℕ) (x : A) (xs ys : List A) → ys ≡ x ∷ xs → without f (f x) ys ≡ some xs
without-head f x xs ys e =
    let same : (f x == f x) ≡ true = (==_iff (f x) (f x)).1 refl in rw (e, same)

module _ {S : Type 0} where
  -- The results that are to be freed and the contexts that are to be shut down.
  abbrev pub Has : List Owned → List ℕ → World S → Type 0
  Has h c w = (w.held ≡ h) × (w.contexts ≡ c)

  -- A return leaves nothing behind, and is an error's.
  abbrev pub Ended : ℕ → World S → Type 0
  Ended code w = (code ≡ 1) × Has [] [] w

  -- It always comes to an end, without undefined behaviour.
  abbrev pub Leads : {A : Type 0} → (World S → Type 0) → (World S → Type 0) → M (World S) A → Type 0
  Leads P Q m = Runs ⊥ ⊥ P (λ _. Q) Ended m

  pub obtain-Leads :
      {A : Type 0} (o : Owned) (call : S → A × S) (h : List Owned) (c : List ℕ)
      → Leads (Has h c) (Has (o ∷ h) c) (obtain o call)
  obtain-Leads o call h c = record { at = λ w p. (ap (λ k. o ∷ k) p.0, p.1) }

  -- What a call answers is what the library gives in some state.
  pub obtain-bind :
      {A B : Type 0} {Q : B → World S → Type 0} (o : Owned) (call : S → A × S)
      (f : A → M (World S) B) (h : List Owned) (c : List ℕ)
      → ((s : S) → Runs ⊥ ⊥ (Has (o ∷ h) c) Q Ended (f (call s).0))
      → Runs ⊥ ⊥ (Has h c) Q Ended (obtain o call >>= f)
  unfolding ◌>>=◌
  obtain-bind o call f h c k = record { at = λ w p. (k w.lib).at _ (ap (λ k. o ∷ k) p.0, p.1) }

  pub ask-bind :
      {A B : Type 0} {Q P : World S → Type 0} (call : S → A × S) (f : A → M (World S) B)
      → ((w : World S) (s : S) → P w → P (record w { lib = s }))
      → ((s : S) → Leads P Q (f (call s).0))
      → Leads P Q (ask call >>= f)
  unfolding ◌>>=◌
  ask-bind call f keep k = record { at = λ w p. (k w.lib).at _ (keep w _ p) }

  pub free-Leads :
      (o : Owned) (h : List Owned) (c : List ℕ) → Leads (Has (o ∷ h) c) (Has h c) (free o)
  free-Leads o h c = record { at = λ w p. rw (without-head tag o h w.held p.0) (refl, p.1) }

  pub shutdown-Leads :
      (lib : Library S) (ctx : ℕ) (h : List Owned) (c : List ℕ)
      → Leads (Has h (ctx ∷ c)) (Has h c) (shutdown lib ctx)
  shutdown-Leads lib ctx h c = record {
    at = λ w p. rw (without-head (λ n. n) ctx c w.contexts p.1) (p.0, refl);
  }

module _ {S : Type 0} (h : List Owned) (c : List ℕ) where
  -- It leaves both as they are.
  abbrev pub Keeps : {A : Type 0} → M (World S) A → Type 0
  Keeps m = Leads (Has h c) (Has h c) m

  pub item-Keeps :
      {A : Type 0} (a : Array A) (i : ℕ) → Fits a → i < turns a.count → Keeps (item a i)
  item-Keeps a i f l =
      let (x, e) = FitsIn-some (turns a.count) a.items i f l in rw e (record { at = λ w p. p })

  pub loop-Keeps :
      (n i : ℕ) (f : ℕ → M (World S) (Unit {0}))
      → ((j : ℕ) → j < i + n → Keeps (f j))
      → Keeps (loop i n f)
  loop-Keeps zero i f k = record { at = λ w p. p }
  loop-Keeps (suc n) i f k =
      Runs-bind (k i (omega arith)) λ _. loop-Keeps n (suc i) f (λ j l. k j (omega arith))

  pub print_items-Keeps :
      {A : Type 0} (f : A → Bytes) (a : Array A) → Fits a → Keeps (print_items f a)
  print_items-Keeps f a l =
      loop-Keeps (turns a.count) 0 _
        λ j m. Runs-bind (item-Keeps a j l (omega arith)) λ x. record { at = λ w p. p }

  -- A step that keeps both, and what follows.
  pub said :
      {A : Type 0} {Q : A → World S → Type 0} (m : M (World S) (Unit {0}))
      (f : Unit {0} → M (World S) A)
      → ((w : World S) → Has h c w → After ⊥ ⊥ (λ _. Has h c) Ended (m w))
      → ((u : Unit {0}) → Runs ⊥ ⊥ (Has h c) Q Ended (f u))
      → Runs ⊥ ⊥ (Has h c) Q Ended (m >>= f)
  said m f k l = Runs-bind {m = m} (record { at = k }) l

  batch-Keeps :
      (state : Bool) (labels : Array Text) (ids caps : Array ℤ)
      → Fits labels
      → Fits ids
      → Fits caps
      → Keeps (on_device_batch state labels ids caps)
  batch-Keeps state labels ids caps l i k = Runs-bind (counted state) λ _.
      said _ _ (λ w p. p)
        λ _. Runs-bind (print_items-Keeps quoted labels l) λ _.
          said _ _ (λ w p. p)
            λ _. Runs-bind (print_items-Keeps dec_int ids i) λ _.
              said _ _ (λ w p. p)
                λ _. Runs-bind (print_items-Keeps dec_int caps k) λ _. record { at = λ w p. p }
    where
      counted : (state : Bool) → Keeps (counted_batch state)
      counted true = record { at = λ w p. p }
      counted false = record { at = λ w p. p }

  dispatch-Keeps : (b : Bool) (n : Notice) → NoticeFits n → Keeps (dispatch (b, n))
  dispatch-Keeps true (discovered id name kind addr) f = record { at = λ w p. p }
  dispatch-Keeps false (discovered id name kind addr) f = record { at = λ w p. p }
  dispatch-Keeps b (batch labels ids caps) (l, i, k) = batch-Keeps b labels ids caps l i k
  dispatch-Keeps b (alerted sensor device status ts) f = record { at = λ w p. p }
  dispatch-Keeps true (status_changed id name online ts) f = record { at = λ w p. p }
  dispatch-Keeps false (status_changed id name online ts) f = record { at = λ w p. p }

  all-Keeps : (ns : List (Bool × Notice)) → NoticesFit ns → Keeps (for_each ns dispatch)
  all-Keeps [] f = record { at = λ w p. p }
  all-Keeps ((b, n) ∷ ns) (f, fs) = Runs-bind (dispatch-Keeps b n f) λ _. all-Keeps ns fs

  pub sleep_ms-Keeps : (lib : Library S) (ms : ℕ) → IsSound lib → Keeps (sleep_ms lib ms)
  sleep_ms-Keeps lib ms ok = ask-bind _ _ (λ w s p. p) λ s. all-Keeps _ (ok.pauses ms s)
