-- ===== src/Monitor/Provider/Valid.antt =====
-- The device list as a map from ids to devices.
use nim_brokers.Prelude.{
  ℕ, zero, suc, ◌≡◌, refl, sym, ap, ◌∙◌, ℤ, pos, negsuc, eq_ℤ, eq_ℤ_iff, true, false, Bool-cases,
  inl, inr, Option, none, some, List, [], ◌∷◌, if◌then◌else◌, arith,
}
use nim_brokers.Monitor.Types.{DeviceInfo}
use nim_brokers.Monitor.Provider.{one_later, find, last_or, but_last, put_last, del}

abbrev pub All : (DeviceInfo → Type 0) → List DeviceInfo → Type 0
All P [] = Unit
All P (d ∷ ds) = P d × All P ds

-- Not the same id.
abbrev pub Differ : DeviceInfo → DeviceInfo → Type 0
Differ d e = eq_ℤ d.device_id e.device_id ≡ false

abbrev pub Apart : List DeviceInfo → Type 0
Apart [] = Unit
Apart (d ∷ ds) = All (Differ d) ds × Apart ds

-- The abstract view: which device an id stands for, whatever the order.
abbrev pub lookup : ℤ → List DeviceInfo → Option DeviceInfo
lookup x [] = none
lookup x (d ∷ ds) = if eq_ℤ d.device_id x then some d else lookup x ds

eq_ℤ_sym : (a b : ℤ) → eq_ℤ a b ≡ false → eq_ℤ b a ≡ false
eq_ℤ_sym (pos m) (pos n) h = ground arith
eq_ℤ_sym (negsuc m) (negsuc n) h = ground arith
eq_ℤ_sym (pos m) (negsuc n) h = refl
eq_ℤ_sym (negsuc m) (pos n) h = refl

All-last_or :
    (P : DeviceInfo → Type 0) (e : DeviceInfo) (es : List DeviceInfo)
    → All P (e ∷ es)
    → P (last_or e es)
All-last_or P e [] (p, a) = p
All-last_or P e (f ∷ fs) (p, a) = All-last_or P f fs a

All-but_last :
    (P : DeviceInfo → Type 0) (e : DeviceInfo) (es : List DeviceInfo)
    → All P (e ∷ es)
    → All P (but_last e es)
All-but_last P e [] a = tt
All-but_last P e (f ∷ fs) (p, a) = (p, All-but_last P f fs a)

-- What holds of all holds of the last, before it is put at the front.
All-put_last : (P : DeviceInfo → Type 0) (ds : List DeviceInfo) → All P ds → All P (put_last ds)
All-put_last P [] a = tt
All-put_last P (e ∷ es) a = (All-last_or P e es a, All-but_last P e es a)

All-map :
    (P Q : DeviceInfo → Type 0) (ds : List DeviceInfo)
    → ((d : DeviceInfo) → P d → Q d)
    → All P ds
    → All Q ds
All-map P Q [] f a = tt
All-map P Q (d ∷ ds) f (p, a) = (f d p, All-map P Q ds f a)

-- The last differs from those before it.
last-Apart :
    (e : DeviceInfo) (es : List DeviceInfo)
    → Apart (e ∷ es)
    → All (Differ (last_or e es)) (but_last e es)
last-Apart e [] a = tt
last-Apart e (f ∷ fs) (d, a) = (
  eq_ℤ_sym e.device_id (last_or f fs).device_id (All-last_or (Differ e) f fs d),
  last-Apart f fs a,
)

but_last-Apart : (e : DeviceInfo) (es : List DeviceInfo) → Apart (e ∷ es) → Apart (but_last e es)
but_last-Apart e [] a = tt
but_last-Apart e (f ∷ fs) (d, a) = (All-but_last (Differ e) f fs d, but_last-Apart f fs a)

put_last-Apart : (ds : List DeviceInfo) → Apart ds → Apart (put_last ds)
put_last-Apart [] a = tt
put_last-Apart (e ∷ es) a = (last-Apart e es a, but_last-Apart e es a)

-- An id stands for one device only.
not_both :
    (d e : DeviceInfo) (x : ℤ) → Differ d e → eq_ℤ d.device_id x ≡ true → eq_ℤ e.device_id x ≡ false
not_both d e x h y =
    let same : d.device_id ≡ x = (eq_ℤ_iff _ _).0 y in eq_ℤ_sym x e.device_id (rw same at h)

lookup-none :
    (x : ℤ) (ds : List DeviceInfo) → All (λ e. eq_ℤ e.device_id x ≡ false) ds → lookup x ds ≡ none
lookup-none x [] a = refl
lookup-none x (d ∷ ds) (n, a) = rw n (lookup-none x ds a)

lookup-put_last : (x : ℤ) (ds : List DeviceInfo) → Apart ds → lookup x (put_last ds) ≡ lookup x ds
lookup-put_last x [] a = refl
lookup-put_last x (e ∷ []) a = refl
lookup-put_last x (e ∷ f ∷ fs) (d, a) =
    let ih = lookup-put_last x (f ∷ fs) a in
    elim (Bool-cases (eq_ℤ e.device_id x)) [
      | inl y ↦
          let last_other = not_both e (last_or f fs) x (All-last_or (Differ e) f fs d) y in
          rw (last_other, y)
      | inr n ↦ rw n ih
    ]

pub All-del : (P : DeviceInfo → Type 0) (i : ℕ) (ds : List DeviceInfo) → All P ds → All P (del i ds)
All-del P i [] a = tt
All-del P zero (d ∷ ds) (p, a) = All-put_last P ds a
All-del P (suc i) (d ∷ ds) (p, a) = (p, All-del P i ds a)

-- What the search for an id says: the device that it stands for, and that the deletion takes the id
-- out of the map and leaves the rest.
abbrev pub Found : ℤ → List DeviceInfo → Option (ℕ × DeviceInfo) → Type 0
Found x ds none = lookup x ds ≡ none
Found x ds (some (i, d)) =
    (lookup x ds ≡ some d)
    × ((y : ℤ) → lookup y (del i ds) ≡ (if eq_ℤ x y then none else lookup y ds))
    × Apart (del i ds)

module _ (x : ℤ) (d : DeviceInfo) (ds : List DeviceInfo) (n : All (Differ d) ds)
    (a : Apart ds) where
  Found-here : eq_ℤ d.device_id x ≡ true → Found x (d ∷ ds) (some (zero, d))
  Found-here y =
      let same : d.device_id ≡ x = (eq_ℤ_iff _ _).0 y in
      let gone : All (λ e. eq_ℤ e.device_id x ≡ false) ds =
        All-map (Differ d) _ ds (λ e h. not_both d e x h y) n in
      (
        rw y,
        λ z. lookup-put_last z ds a ∙ elim (Bool-cases (eq_ℤ x z)) [
          | inl t ↦
              let z_is : x ≡ z = (eq_ℤ_iff _ _).0 t in
              rw t (ap (λ k. lookup k ds) (sym z_is) ∙ lookup-none x ds gone)
          | inr f ↦ let other : eq_ℤ d.device_id z ≡ false = rw same f in rw (f, other)
        ],
        put_last-Apart ds a,
      )

  Found-later :
      (o : Option (ℕ × DeviceInfo))
      → eq_ℤ d.device_id x ≡ false
      → Found x ds o
      → Found x (d ∷ ds) (one_later o)
  Found-later none f h = rw f h
  Found-later (some (i, e)) f (l, m, b) = (
    rw f l,
    λ z. elim (Bool-cases (eq_ℤ d.device_id z)) [
      | inl t ↦
          let z_is : d.device_id ≡ z = (eq_ℤ_iff _ _).0 t in
          let other : eq_ℤ x z ≡ false = eq_ℤ_sym z x (rw z_is at f) in rw (t, other)
      | inr g ↦ rw g (m z)
    ],
    (All-del (Differ d) i ds n, b),
  )

pub find-Found : (x : ℤ) (ds : List DeviceInfo) → Apart ds → Found x ds (find x ds)
find-Found x [] a = refl
find-Found x (d ∷ ds) (n, a) = elim (Bool-cases (eq_ℤ d.device_id x)) [
  | inl y ↦ rw y (Found-here x d ds n a y)
  | inr f ↦ rw f (Found-later x d ds n a (find x ds) f (find-Found x ds a))
]
