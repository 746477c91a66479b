-- ===== src/Address/Routes.antt =====
-- The tables of the master and of a slave agree: a request for a type goes to the coordinator that
-- owns the type, and from there to the host that owns it, never back to the master.
use megastructure.Common.{
  ℕ, ◌≡◌, inl, inr, true, false, ◌||◌, Option, none, String, arith, ◌==◌, if◌then◌else◌, str_eq,
  Bool-cases,
}
use megastructure.Address.Tree.{Elements, end, action, element}
use megastructure.Address.ClientIds.{
  ClientIdMap, ClientMap, lookup, find_client, insert, or_else, lookup-insert, Distinct,
  insert-Distinct,
}
use megastructure.Address.Tables.{
  master_id, self_id, client_or_unmapped, recurse_children, recurse_client, recurse_mapped_clients,
  recurse_slave,
}
use megastructure.Address.Owners.{
  has_type, owner, when, client_of_owner, lookup-recurse_client, lookup-recurse_mapped_clients,
}

recurse_children-Distinct :
    (f : Elements) (client : ℕ) (m : ClientIdMap)
    → Distinct m
    → Distinct (recurse_children f client m)
unfolding recurse_children
recurse_children-Distinct end client m d = d
recurse_children-Distinct (action index identifier is_host children rest) client m d =
    recurse_children-Distinct rest client _
      (recurse_children-Distinct children client _ (insert-Distinct index client m d))
recurse_children-Distinct (element index rest) client m d =
    recurse_children-Distinct rest client _ (insert-Distinct index client m d)

recurse_client-Distinct :
    (index : ℕ) (f : Elements) (client : ℕ) (m : ClientIdMap)
    → Distinct m
    → Distinct (recurse_client index f client m)
unfolding recurse_client
recurse_client-Distinct index f client m d =
    recurse_children-Distinct f client _ (insert-Distinct index client m d)

pub recurse_mapped_clients-Distinct :
    (f : Elements) (clients : ClientMap) (m : ClientIdMap)
    → Distinct m
    → Distinct (recurse_mapped_clients f clients m)
unfolding recurse_mapped_clients
recurse_mapped_clients-Distinct end clients m d = d
recurse_mapped_clients-Distinct (action index identifier is_host children rest) clients m d =
    recurse_mapped_clients-Distinct rest clients _ (
      recurse_client-Distinct index children (client_or_unmapped (find_client identifier clients)) m
        d)
recurse_mapped_clients-Distinct (element index rest) clients m d =
    recurse_mapped_clients-Distinct rest clients m d

pub recurse_slave-Distinct :
    (f : Elements) (clients : ClientMap) (coordinator : String) (m : ClientIdMap)
    → Distinct m
    → Distinct (recurse_slave f clients coordinator m)
unfolding recurse_slave
recurse_slave-Distinct end clients coordinator m d = d
recurse_slave-Distinct (action index identifier is_host children rest) clients coordinator m d =
    recurse_slave-Distinct rest clients coordinator _
      (elim (str_eq coordinator identifier)
        as (λ b. Distinct (
          if b
          then recurse_mapped_clients children clients (insert index self_id m)
          else recurse_client index children master_id m)) [
            | true ↦
                recurse_mapped_clients-Distinct children clients _
                  (insert-Distinct index self_id m d)
            | false ↦ recurse_client-Distinct index children master_id m d
          ])
recurse_slave-Distinct (element index rest) clients coordinator m d =
    recurse_slave-Distinct rest clients coordinator m d

-- The entry that a slave makes for a type.
abbrev pub slave_entry : ℕ → Elements → ClientMap → String → Option ℕ
slave_entry i end clients coordinator = none
slave_entry i (action index identifier is_host children rest) clients coordinator =
    let own = or_else (when (index == i) self_id) (client_of_owner (owner i children) clients) in
    let other = when (index == i || has_type i children) master_id in
    or_else (if str_eq coordinator identifier then own else other)
      (slave_entry i rest clients coordinator)
slave_entry i (element index rest) clients coordinator = slave_entry i rest clients coordinator

pub lookup-recurse_slave :
    (i : ℕ) (f : Elements) (clients : ClientMap) (coordinator : String) (m : ClientIdMap)
    → lookup i (recurse_slave f clients coordinator m)
      ≡ or_else (lookup i m) (slave_entry i f clients coordinator)
unfolding recurse_slave
lookup-recurse_slave i end clients coordinator m = ground arith
lookup-recurse_slave i (action index identifier is_host children rest) clients coordinator m =
    elim (Bool-cases (str_eq coordinator identifier)) [
      | inl q ↦ ground (
        arith,
        lookup-recurse_slave i rest clients coordinator
            (recurse_mapped_clients children clients (insert index self_id m)),
        lookup-recurse_mapped_clients i children clients (insert index self_id m),
        lookup-insert i index self_id m,
      )
      | inr q ↦ ground (
        arith,
        lookup-recurse_slave i rest clients coordinator (recurse_client index children master_id m),
        lookup-recurse_client i index children master_id m,
      )
    ]
lookup-recurse_slave i (element index rest) clients coordinator m =
    lookup-recurse_slave i rest clients coordinator m
