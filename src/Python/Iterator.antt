-- ===== src/Python/Iterator.antt =====
-- class PythonIterator of src/python/python_iterator.cpp. The range is a description of the eg library,
-- of which the iterator reads the subranges and whether it is raw.
use megastructure.Common.{
  ℕ, zero, suc, Bool, true, false, not, ◌&&◌, ◌||◌, List, [], ◌∷◌, Option, none, some, ◌==◌,
  if◌then◌else◌, ◌+◌, length, get_elem?,
}

pub record SubRange : Type 0 where
  pub type : ℕ
  pub begin_position : ℕ
  pub end_position : ℕ

pub record Range : Type 0 where
  pub raw : Bool
  pub sub_ranges : List SubRange

-- What the iterator asks of its PythonEGReferenceFactory, of a type and an instance; `stopped` is
-- whether the state is eg::action_stopped.
pub record ReferenceFactory : Type 0 where
  pub stopped : ℕ → ℕ → Bool
  pub stop_cycle : ℕ → ℕ → ℕ
  pub cycle : ℕ → ℕ
  pub timestamp : ℕ → ℕ → ℕ

pub record PythonIterator : Type 0 where
  pub position : ℕ
  pub sub_range : ℕ

abbrev pub get_size : Range → ℕ
get_size r = length r.sub_ranges

-- The inner loop of scanToNextOrEnd, with fuel. `none` if the fuel ran out, or if a subrange past the
-- end is read.
unfoldable pub skip_ended : ℕ → Range → PythonIterator → Option PythonIterator
skip_ended zero r it = none
skip_ended (suc fuel) r it = elim (it.sub_range == get_size r) [
  | true ↦ some it
  | false ↦ elim (get_elem? r.sub_ranges it.sub_range) [
    | none ↦ none
    | some s ↦ elim (it.position == s.end_position) [
      | false ↦ some it
      | true ↦ elim (it.sub_range + 1 == get_size r) [
        | true ↦ some (record it { sub_range = it.sub_range + 1 })
        | false ↦ elim (get_elem? r.sub_ranges (it.sub_range + 1)) [
          | none ↦ none
          | some s' ↦
              skip_ended fuel r
                (record { position = s'.begin_position; sub_range = it.sub_range + 1 })
        ]
      ]
    ]
  ]
]

-- The test of a position that is not raw.
unfoldable pub is_valid : ReferenceFactory → ℕ → ℕ → Bool
is_valid f type position =
    not (f.stopped type position) || f.stop_cycle type position == f.cycle type

-- The outer loop.
unfoldable pub scan_to_next_or_end :
    ReferenceFactory → ℕ → Range → PythonIterator → Option PythonIterator
unfolding skip_ended is_valid
scan_to_next_or_end f zero r it = none
scan_to_next_or_end f (suc fuel) r it = elim (skip_ended (get_size r + 1) r it) [
  | none ↦ none
  | some it' ↦ elim (it'.sub_range == get_size r) [
    | true ↦ some it'
    | false ↦ elim (get_elem? r.sub_ranges it'.sub_range) [
      | none ↦ none
      | some s ↦ elim (r.raw || is_valid f s.type it'.position) [
        | true ↦ some it'
        | false ↦ scan_to_next_or_end f fuel r (record it' { position = it'.position + 1 })
      ]
    ]
  ]
]

-- The constructor for the begin of the range.
unfoldable pub begin : ReferenceFactory → ℕ → Range → Option PythonIterator
unfolding scan_to_next_or_end
begin f fuel r = elim r.sub_ranges [
  | [] ↦ some (record { position = 0; sub_range = 0 })
  | s ∷ rest ↦ scan_to_next_or_end f fuel r (record { position = s.begin_position; sub_range = 0 })
]

-- The constructor for the end of the range.
unfoldable pub end : Range → PythonIterator
end r = record { position = 0; sub_range = get_size r }

-- operator++
unfoldable pub increment : ReferenceFactory → ℕ → Range → PythonIterator → Option PythonIterator
unfolding scan_to_next_or_end
increment f fuel r it = scan_to_next_or_end f fuel r (record it { position = it.position + 1 })

-- operator== of two iterators over one range
unfoldable pub equals : Range → PythonIterator → PythonIterator → Bool
equals r it it' =
    it.sub_range == it'.sub_range
    && (if it.sub_range == get_size r then true else it.position == it'.position)

-- A reference of eg.
pub record Reference : Type 0 where
  pub instance_id : ℕ
  pub type : ℕ
  pub timestamp : ℕ

-- operator*, without the Python object that is made of the reference. None of Python is `none`.
unfoldable pub dereference : ReferenceFactory → Range → PythonIterator → Option Reference
dereference f r it = elim (it.sub_range == get_size r) [
  | true ↦ none
  | false ↦ elim (get_elem? r.sub_ranges it.sub_range) [
    | none ↦ none
    | some s ↦ some (record {
      instance_id = it.position;
      type = s.type;
      timestamp = f.timestamp s.type it.position;
    })
  ]
]

-- A loop of Python over the range, from `it`: the references in order, or `none` if the fuel of the
-- loop or of a scan ran out.
unfoldable pub iterate :
    ReferenceFactory → ℕ → ℕ → Range → PythonIterator → Option (List (Option Reference))
unfolding equals end dereference increment
iterate f scan_fuel zero r it = none
iterate f scan_fuel (suc fuel) r it = elim (equals r it (end r)) [
  | true ↦ some []
  | false ↦ elim (increment f scan_fuel r it) [
    | none ↦ none
    | some it' ↦ elim (iterate f scan_fuel fuel r it') [
      | none ↦ none
      | some rest ↦ some (dereference f r it ∷ rest)
    ]
  ]
]
