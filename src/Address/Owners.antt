-- ===== src/Address/Owners.antt =====
-- Which action of the program tree a type belongs to, and the entries that the recursions make.
use megastructure.Common.{
  ℕ, ◌≡◌, Bool, true, false, ◌||◌, Option, none, some, String, arith, ◌==◌, if◌then◌else◌,
}
use megastructure.Address.Tree.{Elements, end, action, element}
use megastructure.Address.ClientIds.{
  ClientIdMap, ClientMap, lookup, find_client, insert, or_else, lookup-insert,
}
use megastructure.Address.Tables.{
  client_or_unmapped, recurse_children, recurse_client, recurse_mapped_clients,
}

-- The type `i` stands in the tree.
abbrev pub has_type : ℕ → Elements → Bool
has_type i end = false
has_type i (action index identifier is_host children rest) =
    (index == i || has_type i children) || has_type i rest
has_type i (element index rest) = index == i || has_type i rest

-- The identifier of the first of the top actions that is `i` or has `i` below it.
abbrev pub owner : ℕ → Elements → Option String
owner i end = none
owner i (action index identifier is_host children rest) =
    if index == i || has_type i children then some identifier else owner i rest
owner i (element index rest) = owner i rest

abbrev pub when : Bool → ℕ → Option ℕ
when b v = if b then some v else none

pub lookup-recurse_children :
    (i : ℕ) (f : Elements) (client : ℕ) (m : ClientIdMap)
    → lookup i (recurse_children f client m) ≡ or_else (lookup i m) (when (has_type i f) client)
unfolding recurse_children
lookup-recurse_children i end client m = ground arith
lookup-recurse_children i (action index identifier is_host children rest) client m = ground (
  arith,
  lookup-recurse_children i rest client (recurse_children children client (insert index client m)),
  lookup-recurse_children i children client (insert index client m),
  lookup-insert i index client m,
)
lookup-recurse_children i (element index rest) client m = ground (
  arith,
  lookup-recurse_children i rest client (insert index client m),
  lookup-insert i index client m,
)

pub lookup-recurse_client :
    (i index : ℕ) (f : Elements) (client : ℕ) (m : ClientIdMap)
    → lookup i (recurse_client index f client m)
      ≡ or_else (lookup i m) (when (index == i || has_type i f) client)
unfolding recurse_client
lookup-recurse_client i index f client m = ground (
  arith,
  lookup-recurse_children i f client (insert index client m),
  lookup-insert i index client m,
)

-- The client of a type in the master: that of the coordinator that owns the type.
abbrev pub client_of_owner : Option String → ClientMap → Option ℕ
client_of_owner none clients = none
client_of_owner (some identifier) clients =
    some (client_or_unmapped (find_client identifier clients))

pub lookup-recurse_mapped_clients :
    (i : ℕ) (f : Elements) (clients : ClientMap) (m : ClientIdMap)
    → lookup i (recurse_mapped_clients f clients m)
      ≡ or_else (lookup i m) (client_of_owner (owner i f) clients)
unfolding recurse_mapped_clients
lookup-recurse_mapped_clients i end clients m = ground arith
lookup-recurse_mapped_clients i (action index identifier is_host children rest) clients m =
    let client = client_or_unmapped (find_client identifier clients) in
    ground (
      arith,
      lookup-recurse_mapped_clients i rest clients (recurse_client index children client m),
      lookup-recurse_client i index children client m,
    )
lookup-recurse_mapped_clients i (element index rest) clients m =
    lookup-recurse_mapped_clients i rest clients m

-- The same action: its index, its identifier and what is below it.
abbrev pub owning : ℕ → Elements → Option (ℕ × String × Elements)
owning i end = none
owning i (action index identifier is_host children rest) =
    if index == i || has_type i children then some (index, identifier, children) else owning i rest
owning i (element index rest) = owning i rest

-- No top action after the owner of `i` holds `i` again.
abbrev pub OwnedOnce : ℕ → Elements → Type 0
OwnedOnce i end = Unit {0}
OwnedOnce i (action index identifier is_host children rest) =
    ((index == i || has_type i children) ≡ true → has_type i rest ≡ false) × OwnedOnce i rest
OwnedOnce i (element index rest) = OwnedOnce i rest
