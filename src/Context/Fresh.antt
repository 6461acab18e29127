-- ===== src/Context/Fresh.antt =====
-- The contexts that are allocated are distinct.
use nim_brokers.Prelude.{
  ℕ, ◌+◌, ◌*◌, ◌%◌, ◌<◌, ◌≤◌, ◌≡◌, ◌≢◌, ◌⊎◌, inl, inr, true, Bool-cases, List, [], ◌∷◌, Option,
  none, some, ltb, lt→ltb, and_then, arith,
}
use nim_brokers.Context.{
  BrokerContext, class_ctx, instance_ctx, make_broker_context, default_broker_context, Counters,
  zeroed, next, new_class_ctx, new_broker_context, new_instance_ctx, Request, flat, under, issue,
  issue_all,
}

-- A context is made of its halves, and the halves of the one made of two are these two.
pub make_broker_context-halves :
    (class instance_ : ℕ) (bc : BrokerContext)
    → class < 65536
    → instance_ < 65536
    → bc < 4294967296
    → (class_ctx (make_broker_context class instance_) ≡ class)
      × (instance_ctx (make_broker_context class instance_) ≡ instance_)
      × (make_broker_context (class_ctx bc) (instance_ctx bc) ≡ bc)
unfolding class_ctx instance_ctx make_broker_context
make_broker_context-halves class instance_ bc hc hi hb = (omega arith, omega arith, omega arith)

-- Ids that are left to give.
abbrev pub IsSmall : Counters → Type 0
IsSmall k = (k.class_count ≤ 65533) × (k.instance_count ≤ 65535)

-- A context that is given when the counters stand at `k` or later.
abbrev IsAfter : Counters → BrokerContext → Type 0
IsAfter k bc = ((bc < 65536) × (k.class_count + 2 ≤ bc)) ⊎ ((k.instance_count + 1) * 65536 ≤ bc)

abbrev All : (BrokerContext → Type 0) → List BrokerContext → Type 0
All P [] = Unit
All P (c ∷ cs) = P c × All P cs

-- No two are the same.
abbrev pub AllDistinct : List BrokerContext → Type 0
AllDistinct [] = Unit
AllDistinct (c ∷ cs) = All (λ d. c ≢ d) cs × AllDistinct cs

All-imp :
    (P Q : BrokerContext → Type 0) (cs : List BrokerContext)
    → ((c : BrokerContext) → P c → Q c)
    → All P cs
    → All Q cs
All-imp P Q [] f a = tt
All-imp P Q (c ∷ cs) f (p, a) = (f c p, All-imp P Q cs f a)

-- What one request does.
record Issued (k : Counters) (bc : BrokerContext) (k' : Counters) : Type 0 where
  small : IsSmall k'
  here : IsAfter k bc
  later : (c : BrokerContext) → IsAfter k' c → IsAfter k c
  other : (c : BrokerContext) → IsAfter k' c → bc ≢ c

-- A request is given a context, or the ids of its kind have run out.
abbrev Outcome : Request → Counters → Type 0
Outcome r k =
    ((bc : BrokerContext) × (k' : Counters) × (issue r k ≡ some (bc, k')) × Issued k bc k')
    ⊎ (issue r k ≡ none)

flat-Outcome : (k : Counters) → IsSmall k → Outcome flat k
unfolding new_broker_context new_class_ctx make_broker_context
flat-Outcome k s =
    let id : (k.class_count + 2) % 4294967296 ≡ k.class_count + 2 = omega arith in
    let up : next k.class_count ≡ k.class_count + 1 = omega arith in
    elim (Bool-cases (ltb (k.class_count + 2) 65535)) [
      | inl y ↦
          let room : k.class_count + 2 < 65535 = ground arith in
          inl (
            make_broker_context (k.class_count + 2) 0,
            record k { class_count = k.class_count + 1 },
            rw (id, y, up),
            record {
              small = omega arith;
              here = inl (omega arith);
              later = λ c. elim [ inl h ↦ inl (omega arith) | inr h ↦ inr h ];
              other = λ c. elim [ inl h ↦ omega arith | inr h ↦ omega arith ];
            },
          )
      | inr n ↦ inr (rw (id, n))
    ]

under-Outcome : (p : BrokerContext) (k : Counters) → IsSmall k → Outcome (under p) k
unfolding new_instance_ctx make_broker_context class_ctx
under-Outcome p k s =
    let id : (k.instance_count + 1) % 4294967296 ≡ k.instance_count + 1 = omega arith in
    elim (Bool-cases (ltb (k.instance_count + 1) 65536)) [
      | inl y ↦
          let room : k.instance_count + 1 < 65536 = ground arith in
          inl (
            (k.instance_count + 1) * 65536 + p % 65536,
            record k { instance_count = k.instance_count + 1 },
            rw (id, y),
            record {
              small = omega arith;
              here = inr (omega arith);
              later = λ c. elim [ inl h ↦ inl h | inr h ↦ inr (omega arith) ];
              other = λ c. elim [ inl h ↦ omega arith | inr h ↦ omega arith ];
            },
          )
      | inr n ↦ inr (rw (id, n))
    ]

issue-Outcome : (r : Request) (k : Counters) → IsSmall k → Outcome r k
issue-Outcome flat k s = flat-Outcome k s
issue-Outcome (under p) k s = under-Outcome p k s

abbrev Fresh : Counters → Option (List BrokerContext) → Type 0
Fresh k none = Unit
Fresh k (some cs) = All (IsAfter k) cs × AllDistinct cs

Fresh-cons :
    (k k' : Counters) (bc : BrokerContext) (o : Option (List BrokerContext))
    → Issued k bc k'
    → Fresh k' o
    → Fresh k (and_then o (λ cs. some (bc ∷ cs)))
Fresh-cons k k' bc none i f = tt
Fresh-cons k k' bc (some cs) i (a, d) =
    ((i.here, All-imp _ _ cs i.later a), (All-imp _ _ cs i.other a, d))

issue_all-Fresh : (rs : List Request) (k : Counters) → IsSmall k → Fresh k (issue_all rs k)
unfolding issue_all
issue_all-Fresh [] k s = (tt, tt)
issue_all-Fresh (r ∷ rs) k s = elim (issue-Outcome r k s) [
  | inl (bc, k', e, i) ↦
      rw e (Fresh-cons k k' bc (issue_all rs k') i (issue_all-Fresh rs k' i.small))
  | inr e ↦ rw e tt
]

-- The contexts that any sequence of requests is given in a process, whichever the parents of its
-- instances, are distinct from each other, from the invalid context 0 and from the default context.
pub issue_all-AllDistinct :
    (rs : List Request) (cs : List BrokerContext)
    → issue_all rs zeroed ≡ some cs
    → AllDistinct (0 ∷ default_broker_context ∷ cs)
issue_all-AllDistinct rs cs e =
    let f : Fresh zeroed (some cs) = rw e at (issue_all-Fresh rs zeroed (omega arith)) in
    (
      (
        omega arith,
        All-imp (IsAfter zeroed) _ cs (λ c. elim [ inl h ↦ omega arith | inr h ↦ omega arith ]) f.0,
      ),
      (
        All-imp (IsAfter zeroed) _ cs (λ c. elim [ inl h ↦ omega arith | inr h ↦ omega arith ]) f.0,
        f.1,
      ),
    )

abbrev pub count_flat : List Request → ℕ
count_flat [] = 0
count_flat (flat ∷ rs) = 1 + count_flat rs
count_flat (under p ∷ rs) = count_flat rs

abbrev pub count_under : List Request → ℕ
count_under [] = 0
count_under (flat ∷ rs) = count_under rs
count_under (under p ∷ rs) = 1 + count_under rs

flat-given :
    (k : Counters)
    → k.class_count < 65533
    → issue flat k
      ≡ some
          (make_broker_context (k.class_count + 2) 0, record k { class_count = k.class_count + 1 })
unfolding new_broker_context new_class_ctx
flat-given k h =
    let id : (k.class_count + 2) % 4294967296 ≡ k.class_count + 2 = omega arith in
    let up : next k.class_count ≡ k.class_count + 1 = omega arith in
    let y : ltb (k.class_count + 2) 65535 ≡ true = lt→ltb _ _ (omega arith) in rw (id, y, up)

under-given :
    (p : BrokerContext) (k : Counters)
    → k.instance_count < 65535
    → issue (under p) k
      ≡ some (
        make_broker_context (class_ctx p) (k.instance_count + 1),
        record k { instance_count = k.instance_count + 1 },
      )
unfolding new_instance_ctx
under-given p k h =
    let id : (k.instance_count + 1) % 4294967296 ≡ k.instance_count + 1 = omega arith in
    let y : ltb (k.instance_count + 1) 65536 ≡ true = lt→ltb _ _ (omega arith) in rw (id, y)

cons-given :
    (bc : BrokerContext) (o : Option (List BrokerContext))
    → o ≢ none
    → and_then o (λ cs. some (bc ∷ cs)) ≢ none
cons-given bc none h = h
cons-given bc (some cs) h = λ e. cc

issue_all-given :
    (rs : List Request) (k : Counters)
    → k.class_count + count_flat rs ≤ 65533
    → k.instance_count + count_under rs ≤ 65535
    → issue_all rs k ≢ none
unfolding issue_all
issue_all-given [] k hc hi = λ e. cc
issue_all-given (flat ∷ rs) k hc hi =
    rw (flat-given k (omega arith))
      (cons-given _ _ (issue_all-given rs _ (omega arith) (omega arith)))
issue_all-given (under p ∷ rs) k hc hi =
    rw (under-given p k (omega arith))
      (cons-given _ _ (issue_all-given rs _ (omega arith) (omega arith)))

-- A process is given every context it asks for as long as it asks for no more than 65533 flat ones
-- and 65535 instances.
pub issue_all-total :
    (rs : List Request)
    → count_flat rs ≤ 65533
    → count_under rs ≤ 65535
    → issue_all rs zeroed ≢ none
issue_all-total rs hc hi = issue_all-given rs zeroed (omega arith) (omega arith)
