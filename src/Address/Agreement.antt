-- ===== src/Address/Agreement.antt =====
-- The tables of the master and of a slave agree: a request for a type goes to the coordinator that
-- owns the type, and from there to the host that owns it, never back to the master.
use megastructure.Common.{
  ℕ, ◌≡◌, ◌≢◌, refl, ◌∙◌, sym, ap, subst, inl, inr, false, ◌||◌, [], ◌∷◌, Option, none, some,
  String, arith, ◌==◌, str_eq, eq_iff, Bool-cases, Option-cases, ok,
}
use megastructure.Address.Tree.{Elements, end, action, element, get_mega_root}
use megastructure.Address.ClientIds.{ClientIdMap, ClientMap, lookup, find_client, Distinct}
use megastructure.Address.Tables.{
  unmapped, master_id, client_or_unmapped, recurse_mapped_clients, recurse_slave, Table,
  build_table, get_client_for_type, master_table, slave_table,
}
use megastructure.Address.Build.{lookup-le-highest, build_table_lem, build_table_only}
use megastructure.Address.Owners.{
  has_type, owner, owning, OwnedOnce, client_of_owner, lookup-recurse_mapped_clients,
}
use megastructure.Address.Routes.{
  recurse_mapped_clients-Distinct, recurse_slave-Distinct, slave_entry, lookup-recurse_slave,
}

-- An entry of the map stands in the table.
table_of_lookup :
    (i v : ℕ) (m : ClientIdMap)
    → Distinct m
    → lookup i m ≡ some v
    → get_client_for_type (build_table m) i ≡ some v
table_of_lookup i v m d e =
    build_table_lem i m d (lookup-le-highest 0 i v m e) ∙ ap (λ o. some (client_or_unmapped o)) e

pub owner-owning :
    (i index : ℕ) (f children : Elements) (c : String)
    → owning i f ≡ some (index, c, children)
    → owner i f ≡ some c
owner-owning i index end children c e = ground arith
owner-owning i index (action j id is_host ch rest) children c e =
    ground (arith, owner-owning i index rest children c)
owner-owning i index (element j rest) children c e = owner-owning i index rest children c e

-- For a type that a coordinator owns, the master's table holds the client of that coordinator, or
-- 0 if the coordinator is not enrolled.
pub master_table-owner :
    (i : ℕ) (root tree : Elements) (clients : ClientMap) (coordinator : String) (t : Table)
    → get_mega_root root ≡ ok tree
    → owner i tree ≡ some coordinator
    → master_table (some root) clients ≡ ok t
    → get_client_for_type t i ≡ some (client_or_unmapped (find_client coordinator clients))
unfolding master_table
master_table-owner i root tree clients coordinator t r o e =
    let m = recurse_mapped_clients tree clients [] in
    let found : lookup i m ≡ some (client_or_unmapped (find_client coordinator clients)) =
      lookup-recurse_mapped_clients i tree clients [] ∙ ap (λ x. client_of_owner x clients) o in
    let same : build_table m ≡ t = ground arith in
    subst
      (λ x. get_client_for_type x i ≡ some (client_or_unmapped (find_client coordinator clients)))
      same (table_of_lookup i _ m (recurse_mapped_clients-Distinct tree clients [] tt) found)

owner_absent : (i : ℕ) (f : Elements) → has_type i f ≡ false → owner i f ≡ none
owner_absent i end h = refl
owner_absent i (action j id is_host ch rest) h = ground (arith, owner_absent i rest)
owner_absent i (element j rest) h = ground (arith, owner_absent i rest)

slave_entry_host :
    (i index : ℕ) (f children : Elements) (clients : ClientMap) (c h : String)
    → owning i f ≡ some (index, c, children)
    → index ≢ i
    → owner i children ≡ some h
    → slave_entry i f clients c ≡ some (client_or_unmapped (find_client h clients))
slave_entry_host i index end children clients c h e n o = ground arith
slave_entry_host i index (action j id is_host ch rest) children clients c h e n o =
    elim (Bool-cases (j == i || has_type i ch)) [
      | inl q ↦
          let hit : ◌≡◌ {A = Option (ℕ × String × Elements)} (some (j, id, ch))
              (some (index, c, children)) =
            rw q at e in
          ground (arith, eq_iff c id, hit)
      | inr q ↦
          let miss : owning i rest ≡ some (index, c, children) = rw q at e in
          ground
            (arith, owner_absent i ch, slave_entry_host i index rest children clients c h miss n o)
    ]
slave_entry_host i index (element j rest) children clients c h e n o =
    slave_entry_host i index rest children clients c h e n o

slave_entry_absent :
    (i : ℕ) (f : Elements) (clients : ClientMap) (c : String)
    → has_type i f ≡ false
    → slave_entry i f clients c ≡ none
slave_entry_absent i end clients c h = refl
slave_entry_absent i (action j id is_host ch rest) clients c h =
    ground (arith, slave_entry_absent i rest clients c, owner_absent i ch)
slave_entry_absent i (element j rest) clients c h =
    ground (arith, slave_entry_absent i rest clients c)

-- For a type below a host of the coordinator that owns it, the slave's table of that coordinator
-- holds the client of that host, or 0 if no client has assumed it.
pub slave_table_host :
    (i index : ℕ) (root tree children : Elements) (clients : ClientMap) (coordinator host : String)
    (t : Table)
    → get_mega_root root ≡ ok tree
    → owning i tree ≡ some (index, coordinator, children)
    → index ≢ i
    → owner i children ≡ some host
    → slave_table (some root) clients coordinator ≡ ok t
    → get_client_for_type t i ≡ some (client_or_unmapped (find_client host clients))
unfolding slave_table
slave_table_host i index root tree children clients c h t r o n p e =
    let m = recurse_slave tree clients c [] in
    let found : lookup i m ≡ some (client_or_unmapped (find_client h clients)) =
      lookup-recurse_slave i tree clients c []
      ∙ slave_entry_host i index tree children clients c h o n p in
    let same : build_table m ≡ t = ground arith in
    subst (λ x. get_client_for_type x i ≡ some (client_or_unmapped (find_client h clients))) same
      (table_of_lookup i _ m (recurse_slave-Distinct tree clients c [] tt) found)

-- No client has the number that stands for the master.
abbrev pub NoMaster : ClientMap → Type 0
NoMaster [] = Unit {0}
NoMaster ((k, v) ∷ m) = (v ≢ master_id) × NoMaster m

find_client-NoMaster :
    (h : String) (clients : ClientMap)
    → NoMaster clients
    → client_or_unmapped (find_client h clients) ≢ master_id
find_client-NoMaster h [] n = λ e. omega arith
find_client-NoMaster h ((k, v) ∷ m) n = elim (Bool-cases (str_eq k h)) [
  | inl q ↦ rw (q, find_client, client_or_unmapped) n.0
  | inr q ↦ rw (q, find_client, client_or_unmapped) (find_client-NoMaster h m n.1)
]

slave_entry-NoMaster :
    (i : ℕ) (f : Elements) (clients : ClientMap) (c : String)
    → owner i f ≡ some c
    → OwnedOnce i f
    → NoMaster clients
    → slave_entry i f clients c ≢ some master_id
slave_entry-NoMaster i end clients c o u n = ground arith
slave_entry-NoMaster i (action j id is_host ch rest) clients c o u n =
    elim (Bool-cases (j == i || has_type i ch)) [
      | inl q ↦
          let owns : ◌≡◌ {A = Option String} (some id) (some c) = rw q at o in
          let later = slave_entry_absent i rest clients c (u.0 q) in
          elim (Option-cases (owner i ch)) [
            | inl m ↦ ground (arith, eq_iff c id, owns, later)
            | inr (h, m) ↦
                ground (arith, eq_iff c id, owns, later, find_client-NoMaster h clients n)
          ]
      | inr q ↦
          let above : owner i rest ≡ some c = rw q at o in
          ground (arith, owner_absent i ch, slave_entry-NoMaster i rest clients c above u.1 n)
    ]
slave_entry-NoMaster i (element j rest) clients c o u n =
    slave_entry-NoMaster i rest clients c o u n

-- If the coordinator that owns a type is the only one that holds the type, and no host's client has
-- the number 2 ^ 32 - 1, then the table of the slave of that coordinator does not map the type to
-- the master.
pub slave_table-NoMaster :
    (i : ℕ) (root tree : Elements) (clients : ClientMap) (coordinator : String) (t : Table)
    → get_mega_root root ≡ ok tree
    → owner i tree ≡ some coordinator
    → OwnedOnce i tree
    → NoMaster clients
    → slave_table (some root) clients coordinator ≡ ok t
    → get_client_for_type t i ≢ some master_id
unfolding slave_table
slave_table-NoMaster i root tree clients c t r o u n e bad =
    let m = recurse_slave tree clients c [] in
    let same : build_table m ≡ t = ground arith in
    let found : lookup i m ≡ slave_entry i tree clients c =
      lookup-recurse_slave i tree clients c [] in
    let value : master_id ≡ client_or_unmapped (lookup i m) =
      build_table_only i master_id m (recurse_slave-Distinct tree clients c [] tt)
        (subst (λ x. get_client_for_type x i ≡ some master_id) (sym same) bad) in
    elim (Option-cases (slave_entry i tree clients c)) [
      | inl q ↦
          let zero_is : master_id ≡ unmapped = value ∙ ap client_or_unmapped (found ∙ q) in
          omega arith
      | inr (v, q) ↦
          let value_is : master_id ≡ v = value ∙ ap client_or_unmapped (found ∙ q) in
          slave_entry-NoMaster i tree clients c o u n (q ∙ ap some (sym value_is))
    ]

slave_entry_other :
    (i : ℕ) (f : Elements) (clients : ClientMap) (c coordinator : String)
    → owner i f ≡ some c
    → str_eq coordinator c ≡ false
    → slave_entry i f clients coordinator ≡ some master_id
slave_entry_other i end clients c coordinator o n = ground arith
slave_entry_other i (action j id is_host ch rest) clients c coordinator o n =
    elim (Bool-cases (j == i || has_type i ch)) [
      | inl q ↦
          let owns : ◌≡◌ {A = Option String} (some id) (some c) = rw q at o in ground (arith, owns)
      | inr q ↦
          let above : owner i rest ≡ some c = rw q at o in
          ground (arith, owner_absent i ch, slave_entry_other i rest clients c coordinator above n)
    ]
slave_entry_other i (element j rest) clients c coordinator o n =
    slave_entry_other i rest clients c coordinator o n

-- For a type that another coordinator owns, the slave's table of a coordinator holds the number that
-- stands for the master.
pub slave_table_other :
    (i : ℕ) (root tree : Elements) (clients : ClientMap) (c coordinator : String) (t : Table)
    → get_mega_root root ≡ ok tree
    → owner i tree ≡ some c
    → str_eq coordinator c ≡ false
    → slave_table (some root) clients coordinator ≡ ok t
    → get_client_for_type t i ≡ some master_id
unfolding slave_table
slave_table_other i root tree clients c coordinator t r o n e =
    let m = recurse_slave tree clients coordinator [] in
    let found : lookup i m ≡ some master_id =
      lookup-recurse_slave i tree clients coordinator []
      ∙ slave_entry_other i tree clients c coordinator o n in
    let same : build_table m ≡ t = ground arith in
    subst (λ x. get_client_for_type x i ≡ some master_id) same
      (table_of_lookup i _ m (recurse_slave-Distinct tree clients coordinator [] tt) found)
