-- ===== src/Slave/Partition.antt =====
-- Every enrolled client and every host name of a new program is mapped once or reported as unmapped.
use megastructure.Common.{
  ℕ, ◌+◌, ◌≡◌, refl, inl, inr, [], ◌∷◌, none, some, String, arith, ◌==◌, if◌then◌else◌,
  Option-cases,
}
use megastructure.Slave.Hosts.{Host, HostNameMap, HostMap}
use megastructure.Slave.Remap.{
  Pairs, find_name, insert_name, take_first, reusable, Remapped, same_client, leave, reuse, assign,
  hosts_of, host_names_of, remap, erase_name, any_host,
}
use megastructure.Slave.Fresh.{
  entries_of, hosts_with, pairs_with, entries_named, names_with, Fresh, entries_of-insert_name,
  entries_named-insert_name, entries_of-take_first, Fresh-insert_name, StaysOut, reuse-StaysOut,
  assign-StaysOut,
}

-- A loop neither loses nor doubles a client or a pair, and its result is fresh again.
abbrev Settled : ℕ → String → Pairs → HostNameMap → HostNameMap → Remapped → Type 0
Settled id k ps enrolled mapping r =
    (entries_of id enrolled + entries_of id mapping
      ≡ entries_of id r.enrolled + entries_of id r.mapping)
    × (pairs_with k ps + entries_named k mapping ≡ pairs_with k r.left + entries_named k r.mapping)
    × Fresh r.left r.mapping

leave-Settled :
    (id : ℕ) (k process host : String) (ps : Pairs) (enrolled mapping : HostNameMap) (r : Remapped)
    → Settled id k ps enrolled mapping r
    → StaysOut host r
    → Settled id k ((process, host) ∷ ps) enrolled mapping (leave process host r)
leave-Settled id k process host ps enrolled mapping r s o =
    (s.0, omega (arith, s.1), (o.0, o.1, s.2))

insert-Settled :
    (id : ℕ) (k process host : String) (ps : Pairs) (enrolled rest mapping : HostNameMap)
    (found : Host) (r : Remapped)
    → find_name host mapping ≡ none
    → entries_of id enrolled ≡ entries_of id rest + (if found.mega_client_id == id then 1 else 0)
    → Settled id k ps rest (insert_name host found mapping) r
    → Settled id k ((process, host) ∷ ps) enrolled mapping r
insert-Settled id k process host ps enrolled rest mapping found r f e s = (
  ground (arith, s.0, e, entries_of-insert_name id host found mapping f),
  omega (arith, s.1, entries_named-insert_name k host found mapping f),
  s.2,
)

entries_of-reusable :
    (id : ℕ) (p h : String) (names enrolled rest : HostNameMap) (found : Host)
    → reusable p h names enrolled ≡ some (found, rest)
    → entries_of id enrolled ≡ entries_of id rest + (if found.mega_client_id == id then 1 else 0)
unfolding reusable
entries_of-reusable id p h names enrolled rest found e = elim (Option-cases (find_name h names)) [
  | inl q ↦ ground arith
  | inr (old, q) ↦
      entries_of-take_first id p (same_client old) enrolled rest found (ground (arith, q, e))
]

reuse-Settled :
    (id : ℕ) (k : String) (ps : Pairs) (names enrolled mapping : HostNameMap)
    → Fresh ps mapping
    → Settled id k ps enrolled mapping (reuse ps names enrolled mapping)
unfolding reuse
reuse-Settled id k [] names enrolled mapping f = (refl, refl, tt)
reuse-Settled id k ((p, h) ∷ ps) names enrolled mapping f =
    elim (Option-cases (reusable p h names enrolled)) [
      | inl q ↦
          rw (q, reuse)
            (leave-Settled id k p h ps enrolled mapping (reuse ps names enrolled mapping)
              (reuse-Settled id k ps names enrolled mapping f.2)
              (reuse-StaysOut h ps names enrolled mapping f.0 f.1))
      | inr ((x, rest), q) ↦
          rw (q, reuse)
            (insert-Settled id k p h ps enrolled rest mapping x
              (reuse ps (erase_name h names) rest (insert_name h x mapping)) f.0
              (entries_of-reusable id p h names enrolled rest x q)
              (reuse-Settled id k ps (erase_name h names) rest (insert_name h x mapping)
                (Fresh-insert_name ps h x mapping f.2 f.1)))
    ]

assign-Settled :
    (id : ℕ) (k : String) (ps : Pairs) (enrolled mapping : HostNameMap)
    → Fresh ps mapping
    → Settled id k ps enrolled mapping (assign ps enrolled mapping)
unfolding assign
assign-Settled id k [] enrolled mapping f = (refl, refl, tt)
assign-Settled id k ((p, h) ∷ ps) enrolled mapping f =
    elim (Option-cases (take_first p any_host enrolled)) [
      | inl q ↦
          rw (q, assign)
            (leave-Settled id k p h ps enrolled mapping (assign ps enrolled mapping)
              (assign-Settled id k ps enrolled mapping f.2)
              (assign-StaysOut h ps enrolled mapping f.0 f.1))
      | inr ((x, rest), q) ↦
          rw (q, assign)
            (insert-Settled id k p h ps enrolled rest mapping x
              (assign ps rest (insert_name h x mapping)) f.0
              (entries_of-take_first id p any_host enrolled rest x q)
              (assign-Settled id k ps rest (insert_name h x mapping)
                (Fresh-insert_name ps h x mapping f.2 f.1)))
    ]

hosts_with-hosts_of : (id : ℕ) (m : HostNameMap) → hosts_with id (hosts_of m) ≡ entries_of id m
hosts_with-hosts_of id [] = refl
hosts_with-hosts_of id ((n, h) ∷ m) = ground (arith, hosts_with-hosts_of id m)

names_with-host_names_of :
    (k : String) (ps : Pairs) → names_with k (host_names_of ps) ≡ pairs_with k ps
names_with-host_names_of k [] = refl
names_with-host_names_of k ((p, h) ∷ ps) = ground (arith, names_with-host_names_of k ps)

-- If no host name stands twice in the new program, then the constructor leaves the enrolled hosts as
-- they are, every enrolled client is mapped or reported as unmapped, as often as it is enrolled, and
-- every host name is mapped or reported as unmapped, as often as the new program has it.
pub remap_partition :
    (id : ℕ) (name : String) (old : HostMap) (pairs : Pairs)
    → Fresh pairs []
    → let (new, unmapped_clients, unmapped_host_names) = remap old pairs in
      (new.process_name_map ≡ old.process_name_map)
      × (entries_of id old.process_name_map
          ≡ entries_of id new.hostname_mapping + hosts_with id unmapped_clients)
      × (pairs_with name pairs
          ≡ entries_named name new.hostname_mapping + names_with name unmapped_host_names)
unfolding remap
remap_partition id name old pairs f =
    let first = reuse pairs old.hostname_mapping old.process_name_map [] in
    let second = assign first.left first.enrolled first.mapping in
    let a = reuse-Settled id name pairs old.hostname_mapping old.process_name_map [] f in
    let b = assign-Settled id name first.left first.enrolled first.mapping a.2 in
    (
      refl,
      omega (arith, a.0, b.0, hosts_with-hosts_of id second.enrolled),
      omega (arith, a.1, b.1, names_with-host_names_of name second.left),
    )
