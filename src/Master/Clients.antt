-- ===== src/Master/Clients.antt =====
-- class ClientMap of api/megastructure/clientMap.hpp: which client has which name. A std::map is an
-- association list without double keys; the order of its entries is not modelled.
use megastructure.Common.{
  ℕ, ◌≡◌, ◌≢◌, refl, inl, inr, Bool, true, false, List, [], ◌∷◌, Option, none, some, String, subst,
  arith, ◌==◌, if◌then◌else◌, str_eq, eq_iff, zero, suc, Bool-cases,
}

abbrev pub ClientIdMap : Type 0
ClientIdMap = List (String × ℕ)

unfoldable pub get_client_id : String → ClientIdMap → Option ℕ
get_client_id name [] = none
get_client_id name ((n, id) ∷ m) = if str_eq n name then some id else get_client_id name m

-- The Boolean is the result: whether the name was free.
unfoldable pub enroll : String → ℕ → ClientIdMap → ClientIdMap × Bool
unfolding get_client_id
enroll name id m = elim (get_client_id name m) [
  | none ↦ ((name, id) ∷ m, true)
  | some _ ↦ (m, false)
]

unfoldable pub remove_client : ℕ → ClientIdMap → ClientIdMap
remove_client id [] = []
remove_client id ((n, i) ∷ m) =
    let rest = remove_client id m in if i == id then rest else (n, i) ∷ rest

-- forEachClientID with fuel: the iterator of its loop is never moved. `none` if the fuel ran out.
unfoldable pub for_each_client_id : {W : Type 0} → ℕ → (ℕ → W → W) → ClientIdMap → W → Option W
for_each_client_id zero functor m w = none
for_each_client_id (suc fuel) functor [] w = some w
for_each_client_id (suc fuel) functor ((n, id) ∷ m) w =
    for_each_client_id fuel functor ((n, id) ∷ m) (functor id w)

-- forEachClientID does not end on any map with a client, however long it runs.
pub for_each_client_id_diverges :
    {W : Type 0} (fuel : ℕ) (functor : ℕ → W → W) (m : ClientIdMap) (w : W)
    → m ≢ []
    → for_each_client_id fuel functor m w ≡ none
unfolding for_each_client_id
for_each_client_id_diverges zero functor m w h = refl
for_each_client_id_diverges (suc fuel) functor [] w h = absurd (h refl)
for_each_client_id_diverges (suc fuel) functor ((n, id) ∷ m) w h =
    for_each_client_id_diverges fuel functor ((n, id) ∷ m) (functor id w) h

-- No name stands twice.
abbrev pub Distinct : ClientIdMap → Type 0
Distinct [] = Unit {0}
Distinct ((n, id) ∷ m) = (get_client_id n m ≡ none) × Distinct m

get-remove_none :
    (name : String) (id : ℕ) (m : ClientIdMap)
    → get_client_id name m ≡ none
    → get_client_id name (remove_client id m) ≡ none
unfolding get_client_id remove_client
get-remove_none name id [] h = refl
get-remove_none name id ((n, i) ∷ m) h = ground (arith, get-remove_none name id m)

pub remove_client-Distinct : (id : ℕ) (m : ClientIdMap) → Distinct m → Distinct (remove_client id m)
unfolding remove_client
remove_client-Distinct id [] d = tt
remove_client-Distinct id ((n, i) ∷ m) d =
    ground (arith, remove_client-Distinct id m, get-remove_none n id m)

pub enroll-Distinct :
    (name : String) (id : ℕ) (m : ClientIdMap) → Distinct m → Distinct (enroll name id m).0
unfolding enroll
enroll-Distinct name id m d = ground arith

-- What a client map answers for a name once a client is removed: nothing if the name was the
-- client's, and what it answered before if it was not.
abbrev pub unless : ℕ → Option ℕ → Option ℕ
unless id none = none
unless id (some i) = if i == id then none else some i

-- In a map without double names, the removal of a client takes away exactly the names of that
-- client.
pub get-remove_client :
    (name : String) (id : ℕ) (m : ClientIdMap)
    → Distinct m
    → get_client_id name (remove_client id m) ≡ unless id (get_client_id name m)
unfolding get_client_id remove_client
get-remove_client name id [] d = refl
get-remove_client name id ((n, i) ∷ m) d = elim (Bool-cases (str_eq n name)) [
  | inl same ↦
      let gone : get_client_id name (remove_client id m) ≡ none =
        subst (λ x. get_client_id x (remove_client id m) ≡ none) ((eq_iff n name).0 same)
          (get-remove_none n id m d.0) in
      ground (arith, same, gone)
  | inr other ↦ ground (arith, get-remove_client name id m, other)
]

-- A name can be enrolled exactly when no client has it, and then it is answered with the new
-- client; every other name is answered as before.
pub get-enroll :
    (name other : String) (id : ℕ) (m : ClientIdMap)
    → get_client_id other (enroll name id m).0 ≡ (
        if (enroll name id m).1
        then (if str_eq name other then some id else get_client_id other m)
        else get_client_id other m)
unfolding enroll get_client_id
get-enroll name other id m = ground arith
