-- ===== src/Client/Traits.antt =====
-- readlock and writelock of api/egcomponent/traits.hpp, through which the generated code of a program
-- reads and writes the data of other components.
use megastructure.Common.{
  ℕ, Bool, true, false, ◌&&◌, List, [], ◌∷◌, ◌++◌, none, some, ◌==◌, if◌then◌else◌, ◌+◌, Result, ok,
  throws, ◌>>=◌, get_elem?, set,
}

-- The static functions of class Component that are called, which ask the Program of
-- src/component/program.cpp.
pub data Call : Type 0 where
  asks_readlock : ℕ → Call
  asks_read : ℕ → ℕ → Call
  asks_writelock : ℕ → Call

-- g_hostLocks, g_hostCycles, g_reads and the write set of the host, with the calls made so far,
-- oldest first.
pub record NetState : Type 0 where
  pub host_locks : List Bool
  pub host_cycles : List ℕ
  pub reads : List Bool
  pub write_set : List (ℕ × ℕ)
  pub calls : List Call

-- The parameters of the templates.
pub record Template : Type 0 where
  pub component_cycle : ℕ
  pub component_bit : ℕ
  pub component_rtt : ℕ
  pub hash_base : ℕ
  pub type : ℕ

-- std::bitset::test and std::bitset::set, which throw out of range.
unfoldable pub test : ℕ → List Bool → Result Bool
test i bits = elim (get_elem? bits i) [ none ↦ throws | some b ↦ ok b ]

unfoldable pub set_bit : ℕ → List Bool → Result (List Bool)
set_bit i bits = elim (get_elem? bits i) [ none ↦ throws | some b ↦ ok (set bits i true) ]

unfoldable pub call : Call → NetState → NetState
call c s = record s { calls = s.calls ++ (c ∷ []) }

-- A std::set of an instance and a type, whose order is not modelled.
unfoldable pub insert_write : ℕ × ℕ → List (ℕ × ℕ) → List (ℕ × ℕ)
insert_write x [] = x ∷ []
insert_write (instance_id, type) ((instance_id', type') ∷ rest) =
    let later = insert_write (instance_id, type) rest in
    if instance_id' == instance_id && type' == type
    then (instance_id', type') ∷ rest
    else (instance_id', type') ∷ later

unfoldable pub set_read : ℕ → NetState → Result NetState
unfolding set_bit
set_read bit s = elim (set_bit bit s.reads) [
  | throws ↦ throws
  | ok reads ↦ ok (record s { reads = reads })
]

-- A write of g_hostCycles out of bounds is undefined in the source; here it throws.
unfoldable pub set_cycle : ℕ → ℕ → List ℕ → Result (List ℕ)
set_cycle i cycle cycles = elim (get_elem? cycles i) [
  | none ↦ throws
  | some _ ↦ ok (set cycles i cycle)
]

-- `answers` is the cycle that the component answers to the last of the calls.
module _ (answers : List Call → ℕ) where
  -- The three statements under `!g_hostLocks.test`, up to the set of the lock's bit.
  unfoldable pub take_lock : Call → Template → NetState → Result NetState
  unfolding call set_bit set_cycle
  take_lock c t s =
      let s' = call c s in
      elim (set_cycle t.component_cycle (answers s'.calls) s'.host_cycles) [
        | throws ↦ throws
        | ok cycles ↦ elim (set_bit t.component_bit s'.host_locks) [
          | throws ↦ throws
          | ok locks ↦ ok (record s' { host_cycles = cycles; host_locks = locks })
        ]
      ]

  -- readlock( T& )
  unfoldable pub readlock : Template → NetState → Result NetState
  unfolding test take_lock
  readlock t s = elim (test t.component_bit s.host_locks) [
    | throws ↦ throws
    | ok locked ↦ if locked then ok s else take_lock (Call.asks_readlock t.component_rtt) t s
  ]

  unfoldable pub read_and_set : Template → ℕ → NetState → Result NetState
  unfolding call set_read
  read_and_set t instance_id s =
      set_read (t.hash_base + instance_id) (call (Call.asks_read t.type instance_id) s)

  -- readlock( Instance, T& )
  unfoldable pub readlock_instance : Template → ℕ → NetState → Result NetState
  unfolding test take_lock read_and_set
  readlock_instance t instance_id s = elim (test t.component_bit s.host_locks) [
    | throws ↦ throws
    | ok false ↦ take_lock (Call.asks_readlock t.component_rtt) t s >>= read_and_set t instance_id
    | ok true ↦ elim (test (t.hash_base + instance_id) s.reads) [
      | throws ↦ throws
      | ok is_read ↦ if is_read then ok s else read_and_set t instance_id s
    ]
  ]

  -- writelock( T& )
  unfoldable pub writelock : Template → NetState → Result NetState
  unfolding test take_lock
  writelock t s = elim (test t.component_bit s.host_locks) [
    | throws ↦ throws
    | ok locked ↦ if locked then ok s else take_lock (Call.asks_writelock t.component_rtt) t s
  ]

  -- writelock( Instance, std::set< TypeInstance >&, T& )
  unfoldable pub writelock_instance : Template → ℕ → NetState → Result NetState
  unfolding writelock set_read insert_write
  writelock_instance t instance_id s = writelock t s >>= λ s'.
      set_read (t.hash_base + instance_id) s' >>= λ s''.
      ok (record s'' { write_set = insert_write (instance_id, t.type) s''.write_set })
