-- ===== src/Tests/Clients.antt =====
-- Two enrolled clients.
use megastructure.Common.{ℕ, ◌≡◌, ◌≢◌, refl, List, [], ◌∷◌, none}
use megastructure.Master.Clients.{
  ClientIdMap, get_client_id, for_each_client_id, for_each_client_id_diverges, Distinct,
}

abbrev two_clients : ClientIdMap
two_clients = ("one", 11) ∷ ("two", 12) ∷ []

two_clients-Distinct : Distinct two_clients
unfolding get_client_id
two_clients-Distinct = (refl, (refl, tt))

abbrev note : ℕ → List ℕ → List ℕ
note id ids = id ∷ ids

some_clients : two_clients ≢ []
some_clients = λ e. cc

for_each_client_id_diverges_example : for_each_client_id 100 note two_clients [] ≡ none
for_each_client_id_diverges_example =
    for_each_client_id_diverges 100 note two_clients [] some_clients
