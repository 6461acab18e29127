-- ===== src/Hier/Impl.antt =====
-- HierImpl and WidgetImpl of examples/ffiapi/hierlib/nimlib/hierlib.nim, which one thread serves. The
-- int32 arithmetic is on ℤ.
use nim_brokers.Prelude.{
  ℕ, suc, ◌*◌, ◌==◌, ℤ, pos, negsuc, ◌+ℤ◌, negate, Option, none, some, List, [], ◌∷◌, ◌++◌, Bytes,
  codes, length, if◌then◌else◌,
}
use nim_brokers.Client.{Answer, ok, error}

-- The value of the HierImpl, the sizes of the widgets that are not released, by their instance, and
-- the last instance given out.
pub record Server : Type 0 where
  pub value : ℤ
  pub widgets : List (ℕ × ℤ)
  pub last_instance : ℕ

abbrev pub setup_providers : Server
setup_providers = record { value = pos 7; widgets = []; last_instance = 0 }

infixl 70 ◌*ℤ◌
abbrev pub ◌*ℤ◌ : ℤ → ℤ → ℤ
pos m *ℤ pos n = pos (m * n)
pos m *ℤ negsuc n = negate (m * suc n)
negsuc m *ℤ pos n = negate (suc m * n)
negsuc m *ℤ negsuc n = pos (suc m * suc n)

abbrev pub get_value : Server → Answer ℤ × Server
get_value s = (ok s.value, s)

abbrev pub echo_len : Bytes → Server → Answer ℤ × Server
echo_len text s = (ok (pos (length text)), s)

-- The event that it emits is under way then.
abbrev pub fire_tick : ℤ → Server → Answer ℤ × Server
fire_tick n s = (ok n, s)

abbrev pub on_nudge_signal : ℤ → Server → Server
on_nudge_signal by s = record s { value = s.value +ℤ by }

abbrev pub initialize_request : Bytes → Server → Answer (Unit {0}) × Server
initialize_request path s = (ok tt, s)

-- A widget with an instance of its own, which is what the caller gets.
abbrev pub make_widget : ℤ → Server → Answer ℕ × Server
make_widget size s = (
  ok (suc s.last_instance),
  record s {
    widgets = s.widgets ++ (suc s.last_instance, size) ∷ [];
    last_instance = suc s.last_instance;
  },
)

abbrev size_of : ℕ → List (ℕ × ℤ) → Option ℤ
size_of i [] = none
size_of i ((j, size) ∷ rest) = let later = size_of i rest in if j == i then some size else later

abbrev with_size : ℕ → ℤ → List (ℕ × ℤ) → List (ℕ × ℤ)
with_size i size [] = []
with_size i size ((j, old) ∷ rest) =
    let later = with_size i size rest in if j == i then (j, size) ∷ rest else (j, old) ∷ later

abbrev released : ℕ → List (ℕ × ℤ) → List (ℕ × ℤ)
released i [] = []
released i ((j, size) ∷ rest) =
    let later = released i rest in if j == i then rest else (j, size) ∷ later

-- A request to an instance without a provider is an error.
abbrev no_provider : {A : Type 0} → Answer A
no_provider = error (codes "no provider")

abbrev area_of : Option ℤ → Server → Answer ℤ × Server
area_of none s = (no_provider, s)
area_of (some size) s = (ok (size *ℤ size), s)

abbrev pub area : ℕ → Server → Answer ℤ × Server
area i s = area_of (size_of i s.widgets) s

abbrev scaled : ℕ → ℤ → Option ℤ → Server → Answer ℤ × Server
scaled i factor none s = (no_provider, s)
scaled i factor (some size) s =
    (ok (size *ℤ factor), record s { widgets = with_size i (size *ℤ factor) s.widgets })

abbrev pub scale : ℕ → ℤ → Server → Answer ℤ × Server
scale i factor s = scaled i factor (size_of i s.widgets) s

abbrev resized : ℕ → ℤ → Option ℤ → Server → Server
resized i delta none s = s
resized i delta (some size) s = record s { widgets = with_size i (size +ℤ delta) s.widgets }

abbrev pub on_resize_signal : ℕ → ℤ → Server → Server
on_resize_signal i delta s = resized i delta (size_of i s.widgets) s

abbrev pub release : ℕ → Server → Server
release i s = record s { widgets = released i s.widgets }
