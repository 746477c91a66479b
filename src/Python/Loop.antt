-- ===== src/Python/Loop.antt =====
-- A loop over the iterator visits exactly the valid positions, in order, and ends.
use megastructure.Common.{
  ℕ, zero, suc, ◌≡◌, refl, Bool, true, false, List, [], ◌∷◌, Option, some, ◌==◌, ◌+◌, ◌<◌, length,
  get_elem?, map, arith, ap, ==_refl,
}
use megastructure.Python.Iterator.{
  SubRange, Range, ReferenceFactory, PythonIterator, Reference, get_size, scan_to_next_or_end,
  begin, end, increment, equals, dereference, iterate,
}
use megastructure.Python.Scan.{
  all_visits, visits_from, Proper, positions, Stands, positions_from, Inside, Stands-here,
}
use megastructure.Python.Visits.{First, Scans, scan-Scanned}

abbrev pub reference : ReferenceFactory → ℕ × ℕ → Option Reference
reference f (type, position) =
    some (record { instance_id = position; type = type; timestamp = f.timestamp type position })

module _ (f : ReferenceFactory) (scan_fuel fuel : ℕ) (r : Range) (it : PythonIterator) where
  iterate_end : it.sub_range ≡ get_size r → iterate f scan_fuel (suc fuel) r it ≡ some []
  unfolding iterate equals end
  iterate_end e =
      let self = ==_refl (get_size r) in
      let here : (it.sub_range == get_size r) ≡ true = ground arith in ground arith

  iterate_more :
      (s : SubRange) (it' : PythonIterator) (more : List (Option Reference))
      → (it.sub_range == get_size r) ≡ false
      → get_elem? r.sub_ranges it.sub_range ≡ some s
      → scan_to_next_or_end f scan_fuel r (record it { position = it.position + 1 }) ≡ some it'
      → iterate f scan_fuel fuel r it' ≡ some more
      → iterate f scan_fuel (suc fuel) r it ≡ some (reference f (s.type, it.position) ∷ more)
  unfolding iterate equals end increment dereference
  iterate_more s it' more apart here scan later = ground arith

iterate-visits :
    (f : ReferenceFactory) (scan_fuel fuel : ℕ) (r : Range) (it : PythonIterator)
    (left : List SubRange) (todo : List (ℕ × ℕ))
    → Stands r it left
    → Inside left it
    → First f r left it todo
    → positions_from left it.position < scan_fuel
    → length todo < fuel
    → iterate f scan_fuel fuel r it ≡ some (map (reference f) todo)
unfolding Scans
iterate-visits f scan_fuel zero r it left todo st inside first h g = absurd (omega arith)
iterate-visits f scan_fuel (suc fuel) r it [] todo st inside first h g =
    rw (first) (iterate_end f scan_fuel fuel r it st)
iterate-visits f scan_fuel (suc fuel) r it (s ∷ rest) todo st inside first h g =
    let (apart, here) = Stands-here r it s rest st in
    let later = visits_from f r.raw (s ∷ rest) (it.position + 1) in
    let (it', run, k) =
      scan-Scanned f scan_fuel r (record it { position = it.position + 1 }) s rest
        (st.0, st.1, omega (arith, inside), st.3) (omega (arith, h)) in
    let shorter = ap length first in
    rw (first) (
      iterate_more f scan_fuel fuel r it s it' (map (reference f) later) apart here run (
        iterate-visits f scan_fuel fuel r it' k.left' later k.stands k.inside k.first
          (omega (arith, h, k.bounded)) (omega (arith, g, shorter))))

iterate_range :
    (f : ReferenceFactory) (scan_fuel fuel : ℕ) (raw : Bool) (subs : List SubRange)
    → Proper subs
    → positions subs < scan_fuel
    → length (all_visits f raw subs) < fuel
    → (it : PythonIterator) × (begin f scan_fuel (record { raw = raw; sub_ranges = subs })
        ≡ some it)
      × (iterate f scan_fuel fuel (record { raw = raw; sub_ranges = subs }) it
          ≡ some (map (reference f) (all_visits f raw subs)))
unfolding begin Scans
iterate_range f scan_fuel fuel raw [] proper h g =
    let r : Range = record { raw = raw; sub_ranges = [] } in
    let it : PythonIterator = record { position = 0; sub_range = 0 } in
    (it, refl, iterate-visits f scan_fuel fuel r it [] [] refl tt refl h g)
iterate_range f scan_fuel fuel raw (s ∷ rest) proper h g =
    let r : Range = record { raw = raw; sub_ranges = s ∷ rest } in
    let start : PythonIterator = record { position = s.begin_position; sub_range = 0 } in
    let (it, run, k) =
      scan-Scanned f scan_fuel r start s rest (omega arith, refl, proper.0, proper.1) h in
    (
      it,
      run,
      iterate-visits f scan_fuel fuel r it k.left' (all_visits f raw (s ∷ rest)) k.stands k.inside
          k.first (omega (arith, h, k.bounded)) g,
    )

-- In a range whose subranges do not end before they begin, with fuel for its positions: the begin of
-- the range is found, and a loop from there to the end of the range ends and visits exactly the
-- valid positions of the subranges, each once and in order.
pub iterate_lem :
    (f : ReferenceFactory) (scan_fuel fuel : ℕ) (r : Range)
    → Proper r.sub_ranges
    → positions r.sub_ranges < scan_fuel
    → length (all_visits f r.raw r.sub_ranges) < fuel
    → (it : PythonIterator) × (begin f scan_fuel r ≡ some it)
      × (iterate f scan_fuel fuel r it ≡ some (map (reference f) (all_visits f r.raw r.sub_ranges)))
unfolding begin Scans
iterate_lem f scan_fuel fuel r proper h g =
    iterate_range f scan_fuel fuel r.raw r.sub_ranges proper h g
