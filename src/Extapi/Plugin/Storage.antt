-- ===== src/Extapi/Plugin/Storage.antt =====
-- The requests and the signal that `CppStorage` of examples/extapi/cpp_plugin/plugin.cpp serves.
-- Each answers once; the pause of 10 ms in each round of `compact` is left out.
use nim_brokers.Prelude.{
  ℕ, zero, suc, ◌+◌, ◌*◌, ◌<◌, ◌≤◌, ℤ, ◌≢◌, pos, negsuc, ◌≡◌, refl, Bool, true, false, Bool-cases,
  inl, inr, Option, none, some, ◌++◌, Bytes, codes, str_eq, dec, dec_int, length, if◌then◌else◌,
  arith,
}

pub data Reply : Type 0 → Type 1 where
  ok : {A : Type 0} → A → Reply A
  err : {A : Type 0} → Bytes → Reply A

-- An exception out of a method is answered with its text.
unfoldable pub fetch_blob : Bytes → Reply Bytes
fetch_blob key = if str_eq key (codes "throw") then err (codes "boom") else ok (codes "cpp:" ++ key)

unfoldable pub store_blob : Bytes → Bytes → Reply Bytes
store_blob key data_ = ok (codes "etag-" ++ key ++ codes "-" ++ dec (length data_))

abbrev pub list_keys : Reply Bytes
list_keys = err (codes "not provided")

-- The level in 64 bits, which hold the product of every `int32_t`.
abbrev pub kilo : ℤ → ℤ
kilo (pos n) = pos (n * 1024)
kilo (negsuc n) = negsuc (n * 1024 + 1023)

-- What the call answers, and how many calls have been cancelled. `stop i` is the stop token's
-- answer in round `i`.
unfoldable pub compact_rounds : (ℕ → Bool) → ℤ → ℕ → ℕ → ℕ → Reply ℤ × ℕ
compact_rounds stop level i zero cancels = (ok (kilo level), cancels)
compact_rounds stop level i (suc left) cancels =
    let rest = compact_rounds stop level (suc i) left cancels in
    if stop i then (err (codes "dropped"), suc cancels) else rest

unfoldable pub compact : (ℕ → Bool) → ℤ → ℕ → Reply ℤ × ℕ
compact stop level cancels = compact_rounds stop level 0 200 cancels

pub record BlobEvicted : Type 0 where
  pub key : Bytes
  pub reason : Bytes

-- The event that follows a hint, and the port it is emitted on.
unfoldable pub compact_hint : Option ℕ → ℤ → Option (ℕ × BlobEvicted)
compact_hint none urgency = none
compact_hint (some p) urgency =
    some (p, record { key = codes "k" ++ dec_int urgency; reason = codes "compact" })

compact_rounds-done :
    (stop : ℕ → Bool) (level : ℤ) (i left cancels : ℕ)
    → ((j : ℕ) → i ≤ j → j < i + left → stop j ≡ false)
    → compact_rounds stop level i left cancels ≡ (ok (kilo level), cancels)
unfolding compact_rounds
compact_rounds-done stop level i zero cancels quiet = refl
compact_rounds-done stop level i (suc left) cancels quiet =
    rw (quiet i (omega arith) (omega arith)) (
      compact_rounds-done stop level (suc i) left cancels
        (λ j a b. quiet j (omega arith) (omega arith)))

compact_rounds-dropped :
    (stop : ℕ → Bool) (level : ℤ) (i left cancels j : ℕ)
    → i ≤ j
    → j < i + left
    → stop j ≡ true
    → compact_rounds stop level i left cancels ≡ (err (codes "dropped"), suc cancels)
unfolding compact_rounds
compact_rounds-dropped stop level i zero cancels j a b e = absurd (omega arith)
compact_rounds-dropped stop level i (suc left) cancels j a b e = elim (Bool-cases (stop i)) [
  | inl y ↦ rw y
  | inr n ↦
      let later : i ≢ j = λ same. cc in
      rw n (compact_rounds-dropped stop level (suc i) left cancels j (omega arith) (omega arith) e)
]

-- A compaction whose token stays quiet in all its 200 rounds answers with its result and counts no
-- cancellation.
pub compact-quiet :
    (stop : ℕ → Bool) (level : ℤ) (cancels : ℕ)
    → ((i : ℕ) → i < 200 → stop i ≡ false)
    → compact stop level cancels ≡ (ok (kilo level), cancels)
unfolding compact
compact-quiet stop level cancels quiet =
    compact_rounds-done stop level 0 200 cancels (λ j a b. quiet j b)

-- A compaction whose token is set in any one of the 200 rounds answers that it was dropped, and is
-- counted once.
pub compact-dropped :
    (stop : ℕ → Bool) (level : ℤ) (cancels i : ℕ)
    → i < 200
    → stop i ≡ true
    → compact stop level cancels ≡ (err (codes "dropped"), suc cancels)
unfolding compact
compact-dropped stop level cancels i h e =
    compact_rounds-dropped stop level 0 200 cancels i (omega arith) h e
