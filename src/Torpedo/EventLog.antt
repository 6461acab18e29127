-- ===== src/Torpedo/EventLog.antt =====
-- `EventLog` of examples/torpedo/cpp_example/main.cpp. Each method holds the mutex for the whole of
-- its body, so concurrent callers see its calls in some order, one after the other.
pub mod History
use nim_brokers.Prelude.{
  ℕ, ◌-◌, List, [], ◌∷◌, ◌++◌, Bool, Bytes, length, ltb, foldl, if◌then◌else◌,
}

pub record EventLog : Type 0 where
  pub entries : List Bytes
  pub max_entries : ℕ

unfoldable pub new : ℕ → EventLog
new max_entries = record { entries = []; max_entries = max_entries }

-- `while (entries_.size() > maxEntries_) entries_.pop_front();`
unfoldable pub trim : ℕ → List Bytes → List Bytes
trim max_entries [] = []
trim max_entries (x ∷ xs) =
    let rest = trim max_entries xs in if ltb max_entries (length (x ∷ xs)) then rest else x ∷ xs

unfoldable pub push : EventLog → Bytes → EventLog
unfolding trim
push log msg = record log { entries = trim log.max_entries (log.entries ++ msg ∷ []) }

unfoldable pub snapshot : EventLog → List Bytes
snapshot log = log.entries

abbrev last_of : List Bytes → Bytes
last_of [] = []
last_of (x ∷ []) = x
last_of (x ∷ y ∷ xs) = last_of (y ∷ xs)

-- The newest entry, or the empty text.
unfoldable pub last : EventLog → Bytes
last log = last_of log.entries

-- The calls of `push` in the order in which they got the mutex.
unfoldable pub push_all : EventLog → List Bytes → EventLog
push_all = foldl push
