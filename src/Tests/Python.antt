-- ===== src/Tests/Python.antt =====
-- A range of three subranges, the second of which is empty, with a stopped instance in the first.
use megastructure.Common.{◌≡◌, refl, false, [], ◌∷◌, some, map, ◌==◌, ◌<◌, length, arith}
use megastructure.Python.Iterator.{
  Range, ReferenceFactory, PythonIterator, begin, iterate, is_valid,
}
use megastructure.Python.Scan.{all_visits, Proper, positions}
use megastructure.Python.Loop.{reference, iterate_lem}

abbrev factory : ReferenceFactory
factory = record {
  stopped = λ type position. position == 1;
  stop_cycle = λ type position. 5;
  cycle = λ type. 6;
  timestamp = λ type position. 4;
}

abbrev range : Range
range = record {
  raw = false;
  sub_ranges =
      record { type = 10; begin_position = 0; end_position = 3 }
      ∷ record { type = 11; begin_position = 2; end_position = 2 }
      ∷ record { type = 12; begin_position = 1; end_position = 3 }
      ∷ [];
}

range-Proper : Proper range.sub_ranges
range-Proper = (omega arith, (omega arith, (omega arith, tt)))

enough_scans : positions range.sub_ranges < 10
enough_scans = omega arith

visits_found : all_visits factory false range.sub_ranges ≡ ((10, 0) ∷ (10, 2) ∷ (12, 2) ∷ [])
unfolding is_valid
visits_found = refl

enough_visits : length (all_visits factory range.raw range.sub_ranges) < 10
unfolding is_valid
enough_visits = omega arith

iterate_lem_example :
    (it : PythonIterator) × (begin factory 10 range ≡ some it)
    × (iterate factory 10 10 range it
        ≡ some (map (reference factory) (all_visits factory range.raw range.sub_ranges)))
iterate_lem_example = iterate_lem factory 10 10 range range-Proper enough_scans enough_visits
