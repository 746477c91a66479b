-- ===== src/Slave/Hosts.antt =====
-- classes Host and HostMap of src/slave/hostMap.hpp and src/slave/hostMap.cpp. A multimap is the list
-- of its entries in the order in which it is iterated; how a multimap orders them at an enrolment is
-- not modelled.
use megastructure.Common.{
  ℕ, ◌≡◌, Bool, true, false, List, [], ◌∷◌, Option, none, some, String, arith, ◌==◌, if◌then◌else◌,
  str_eq,
}

-- `eg_client_id` is not set by the constructor of the source.
pub record Host : Type 0 where
  pub process_name : String
  pub unique_id : String
  pub mega_client_id : ℕ
  pub eg_client_id : ℕ

abbrev pub HostNameMap : Type 0
HostNameMap = List (String × Host)

pub record HostMap : Type 0 where
  pub process_name_map : HostNameMap
  pub hostname_mapping : HostNameMap

unfoldable pub erase_by_host_mega_client_id : ℕ → HostNameMap → HostNameMap
erase_by_host_mega_client_id id [] = []
erase_by_host_mega_client_id id ((name, h) ∷ rest) =
    let kept = erase_by_host_mega_client_id id rest in
    if h.mega_client_id == id then kept else (name, h) ∷ kept

unfoldable pub remove_client : ℕ → HostMap → HostMap
unfolding erase_by_host_mega_client_id
remove_client id m = record {
  process_name_map = erase_by_host_mega_client_id id m.process_name_map;
  hostname_mapping = erase_by_host_mega_client_id id m.hostname_mapping;
}

unfoldable pub enrolleg_in : ℕ → String → HostNameMap → HostNameMap
enrolleg_in id unique_id [] = []
enrolleg_in id unique_id ((name, h) ∷ rest) =
    let rest' = enrolleg_in id unique_id rest in
    if str_eq h.unique_id unique_id
    then (name, record h { eg_client_id = id }) ∷ rest
    else (name, h) ∷ rest'

-- The Boolean is the result, which is true whether or not a host was found.
unfoldable pub enrolleg : ℕ → String → HostMap → HostMap × Bool
unfolding enrolleg_in
enrolleg id unique_id m =
    (record m { process_name_map = enrolleg_in id unique_id m.process_name_map }, true)

unfoldable pub mega_client_in : ℕ → HostNameMap → ℕ
mega_client_in id [] = 0
mega_client_in id ((name, h) ∷ rest) =
    let next = mega_client_in id rest in if h.eg_client_id == id then h.mega_client_id else next

unfoldable pub get_mega_client_for_eg_client : ℕ → HostMap → ℕ
unfolding mega_client_in
get_mega_client_for_eg_client id m = mega_client_in id m.process_name_map

abbrev pub has_mega : ℕ → HostNameMap → Bool
has_mega id [] = false
has_mega id ((name, h) ∷ rest) = if h.mega_client_id == id then true else has_mega id rest

-- The mega client of the first host with this unique id.
abbrev pub mega_of_unique : String → HostNameMap → Option ℕ
mega_of_unique unique_id [] = none
mega_of_unique unique_id ((name, h) ∷ rest) =
    if str_eq h.unique_id unique_id then some h.mega_client_id else mega_of_unique unique_id rest

abbrev pub has_eg : ℕ → HostNameMap → Bool
has_eg id [] = false
has_eg id ((name, h) ∷ rest) = if h.eg_client_id == id then true else has_eg id rest

mega_client_in-enrolleg_in :
    (id : ℕ) (unique_id : String) (mega : ℕ) (m : HostNameMap)
    → has_eg id m ≡ false
    → mega_of_unique unique_id m ≡ some mega
    → mega_client_in id (enrolleg_in id unique_id m) ≡ mega
unfolding mega_client_in enrolleg_in
mega_client_in-enrolleg_in id unique_id mega [] fresh found = ground arith
mega_client_in-enrolleg_in id unique_id mega ((name, h) ∷ rest) fresh found =
    ground (arith, mega_client_in-enrolleg_in id unique_id mega rest)

-- After an enrolment of an eg client that no host has yet, with the unique id of an enrolled host,
-- the eg client is answered with the mega client of the first host with that unique id.
pub get_mega-enrolleg :
    (id : ℕ) (unique_id : String) (mega : ℕ) (m : HostMap)
    → has_eg id m.process_name_map ≡ false
    → mega_of_unique unique_id m.process_name_map ≡ some mega
    → get_mega_client_for_eg_client id (enrolleg id unique_id m).0 ≡ mega
unfolding get_mega_client_for_eg_client enrolleg
get_mega-enrolleg id unique_id mega m fresh found =
    mega_client_in-enrolleg_in id unique_id mega m.process_name_map fresh found

erase-has_mega :
    (id other : ℕ) (m : HostNameMap)
    → has_mega other (erase_by_host_mega_client_id id m)
      ≡ (if other == id then false else has_mega other m)
unfolding erase_by_host_mega_client_id
erase-has_mega id other [] = ground arith
erase-has_mega id other ((name, h) ∷ rest) = ground (arith, erase-has_mega id other rest)

-- The removal of a client takes all its hosts out of both maps, and leaves those of every other
-- client in them.
pub remove_client-has_mega :
    (id other : ℕ) (m : HostMap)
    → (has_mega other (remove_client id m).process_name_map
        ≡ (if other == id then false else has_mega other m.process_name_map))
      × (has_mega other (remove_client id m).hostname_mapping
          ≡ (if other == id then false else has_mega other m.hostname_mapping))
unfolding remove_client
remove_client-has_mega id other m =
    (erase-has_mega id other m.process_name_map, erase-has_mega id other m.hostname_mapping)
