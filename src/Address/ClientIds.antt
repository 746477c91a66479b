-- ===== src/Address/ClientIds.antt =====
-- The maps of src/core/networkAddressTable.cpp as association lists: `insert` of std::map keeps an
-- entry that is there.
use megastructure.Common.{
  ℕ, ◌≡◌, refl, List, [], ◌∷◌, Option, none, some, String, arith, ◌==◌, if◌then◌else◌, str_eq,
}

abbrev pub ClientIdMap : Type 0
ClientIdMap = List (ℕ × ℕ)

abbrev pub ClientMap : Type 0
ClientMap = List (String × ℕ)

abbrev pub lookup : ℕ → ClientIdMap → Option ℕ
lookup k [] = none
lookup k ((j, v) ∷ m) = if j == k then some v else lookup k m

abbrev pub find_client : String → ClientMap → Option ℕ
find_client k [] = none
find_client k ((j, v) ∷ m) = if str_eq j k then some v else find_client k m

unfoldable pub insert : ℕ → ℕ → ClientIdMap → ClientIdMap
insert k v [] = (k, v) ∷ []
insert k v ((j, w) ∷ m) = if j == k then (j, w) ∷ m else (j, w) ∷ insert k v m

abbrev pub or_else : Option ℕ → Option ℕ → Option ℕ
or_else none o = o
or_else (some v) o = some v

pub lookup-insert :
    (j k v : ℕ) (m : ClientIdMap)
    → lookup j (insert k v m) ≡ or_else (lookup j m) (if k == j then some v else none)
unfolding insert
lookup-insert j k v [] = refl
lookup-insert j k v ((i, w) ∷ m) = ground (arith, lookup-insert j k v m)

-- No key stands twice.
abbrev pub Distinct : ClientIdMap → Type 0
Distinct [] = Unit {0}
Distinct ((k, v) ∷ m) = (lookup k m ≡ none) × Distinct m

pub insert-Distinct : (k v : ℕ) (m : ClientIdMap) → Distinct m → Distinct (insert k v m)
unfolding insert
insert-Distinct k v [] d = (refl, tt)
insert-Distinct k v ((j, w) ∷ m) d = ground (arith, insert-Distinct k v m, lookup-insert j k v m)
