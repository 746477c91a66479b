-- ===== src/Tests/Directory.antt =====
-- The client map against a directory.
use megastructure.Common.{◌≡◌, refl, true, false, List, [], ◌∷◌, none, some, String}
use megastructure.Master.Clients.{get_client_id, enroll, remove_client}
use megastructure.Master.Directory.{
  MapOperation, enrolls, removes, run_map, run_directory, run_map-refines, Directory,
}

abbrev operations : List MapOperation
operations = enrolls "one" 11 ∷ enrolls "one" 12 ∷ removes 11 ∷ enrolls "one" 13 ∷ []

abbrev nobody : Directory
nobody name = none

nobody_enrolled : (name : String) → get_client_id name [] ≡ nobody name
unfolding get_client_id
nobody_enrolled name = refl

run_map-refines_example :
    ((run_map operations [] []).1 ≡ (run_directory operations nobody []).1)
    × ((name : String)
        → get_client_id name (run_map operations [] []).0
          ≡ (run_directory operations nobody []).0 name)
run_map-refines_example = run_map-refines operations [] nobody [] tt nobody_enrolled

-- The enrolments of the run, the last one first, and the client at its end.
operations_run : (run_map operations [] []).1 ≡ (true ∷ false ∷ true ∷ [])
unfolding enroll get_client_id remove_client
operations_run = refl

last_client : get_client_id "one" (run_map operations [] []).0 ≡ some 13
unfolding enroll get_client_id remove_client
last_client = refl
