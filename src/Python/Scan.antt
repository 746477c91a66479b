-- ===== src/Python/Scan.antt =====
-- The scan of the iterator against a list of what it has still to visit.
use megastructure.Common.{
  ℕ, zero, suc, ◌≡◌, refl, inl, inr, Bool, true, false, ◌||◌, List, [], ◌∷◌, ◌++◌, some, ◌==◌,
  if◌then◌else◌, ◌+◌, ◌-◌, ◌≤◌, ◌<◌, length, get_elem?, arith, subst, sym, ◌∙◌, Bool-cases, ==_iff,
}
use megastructure.Python.Iterator.{
  SubRange, Range, ReferenceFactory, PythonIterator, get_size, skip_ended, is_valid,
}

abbrev pub drop {ℓ} : {A : Type ℓ} → ℕ → List A → List A
drop zero xs = xs
drop (suc n) [] = []
drop (suc n) (x ∷ xs) = drop n xs

-- The valid positions of `n` positions from `position` on.
abbrev pub visits : ReferenceFactory → Bool → ℕ → ℕ → ℕ → List (ℕ × ℕ)
visits f raw type position zero = []
visits f raw type position (suc n) =
    if raw || is_valid f type position
    then (type, position) ∷ visits f raw type (position + 1) n
    else visits f raw type (position + 1) n

-- The types and positions of whole subranges that a loop is to visit, in order.
abbrev pub all_visits : ReferenceFactory → Bool → List SubRange → List (ℕ × ℕ)
all_visits f raw [] = []
all_visits f raw (s ∷ rest) =
    visits f raw s.type s.begin_position (s.end_position - s.begin_position)
    ++ all_visits f raw rest

-- The same from a position in the first subrange.
abbrev pub visits_from : ReferenceFactory → Bool → List SubRange → ℕ → List (ℕ × ℕ)
visits_from f raw [] position = []
visits_from f raw (s ∷ rest) position =
    visits f raw s.type position (s.end_position - position) ++ all_visits f raw rest

-- No subrange ends before it begins.
abbrev pub Proper : List SubRange → Type 0
Proper [] = Unit {0}
Proper (s ∷ rest) = (s.begin_position ≤ s.end_position) × Proper rest

abbrev pub positions : List SubRange → ℕ
positions [] = 0
positions (s ∷ rest) = (s.end_position - s.begin_position) + positions rest

-- The iterator stands before or in the first of the subranges `left`, or at the end if there are none.
abbrev pub Stands : Range → PythonIterator → List SubRange → Type 0
Stands r it [] = it.sub_range ≡ get_size r
Stands r it (s ∷ rest) =
    (it.sub_range + length (s ∷ rest) ≡ get_size r)
    × (drop it.sub_range r.sub_ranges ≡ s ∷ rest)
    × (it.position ≤ s.end_position)
    × Proper rest

-- The positions that are left.
abbrev pub positions_from : List SubRange → ℕ → ℕ
positions_from [] position = 0
positions_from (s ∷ rest) position = (s.end_position - position) + positions rest

-- The position is one of the first subrange.
abbrev pub Inside : List SubRange → PythonIterator → Type 0
Inside [] it = Unit {0}
Inside (s ∷ rest) it = it.position < s.end_position

drop-get_elem? {ℓ} :
    {A : Type ℓ} (n : ℕ) (xs : List A) (y : A) (ys : List A)
    → drop n xs ≡ y ∷ ys
    → (get_elem? xs n ≡ some y) × (drop (suc n) xs ≡ ys)
drop-get_elem? zero [] y ys e = absurd (ground arith)
drop-get_elem? zero (x ∷ xs) y ys e = (ground arith, ground arith)
drop-get_elem? (suc n) [] y ys e = absurd (ground arith)
drop-get_elem? (suc n) (x ∷ xs) y ys e = drop-get_elem? n xs y ys e

-- The subrange that the iterator stands in, and that it is not at the end.
pub Stands-here :
    (r : Range) (it : PythonIterator) (s : SubRange) (rest : List SubRange)
    → Stands r it (s ∷ rest)
    → ((it.sub_range == get_size r) ≡ false) × (get_elem? r.sub_ranges it.sub_range ≡ some s)
Stands-here r it s rest (sum, left, short, proper) =
    (ground arith, (drop-get_elem? it.sub_range r.sub_ranges s rest left).0)

-- What the inner loop leaves, from `it` to `it'`.
pub record Skipped (f : ReferenceFactory) (r : Range) (left : List SubRange) (it : PythonIterator)
    (it' : PythonIterator) : Type 0 where
  pub left' : List SubRange
  pub stands : Stands r it' left'
  pub inside : Inside left' it'
  pub visits_same : visits_from f r.raw left' it'.position ≡ visits_from f r.raw left it.position
  pub positions_same : positions_from left' it'.position ≡ positions_from left it.position

visits_from-ended :
    (f : ReferenceFactory) (raw : Bool) (s : SubRange) (rest : List SubRange) (position : ℕ)
    → position ≡ s.end_position
    → (visits_from f raw (s ∷ rest) position ≡ all_visits f raw rest)
      × (positions_from (s ∷ rest) position ≡ positions rest)
visits_from-ended f raw s rest position e =
    let nothing : s.end_position - position ≡ 0 = omega arith in (rw (nothing) refl, omega arith)

module _ (r : Range) (it : PythonIterator) (s : SubRange)
    (apart : (it.sub_range == get_size r) ≡ false)
    (here : get_elem? r.sub_ranges it.sub_range ≡ some s) where
  skip_inside :
      (fuel : ℕ) → (it.position == s.end_position) ≡ false → skip_ended (suc fuel) r it ≡ some it
  unfolding skip_ended
  skip_inside fuel q = ground arith

  skip_next :
      (fuel : ℕ) (s' : SubRange)
      → (it.position == s.end_position) ≡ true
      → ((it.sub_range + 1) == get_size r) ≡ false
      → get_elem? r.sub_ranges (it.sub_range + 1) ≡ some s'
      → skip_ended (suc fuel) r it
        ≡ skip_ended fuel r (record { position = s'.begin_position; sub_range = it.sub_range + 1 })
  unfolding skip_ended
  skip_next fuel s' q last next = ground arith

  skip_last :
      (fuel : ℕ)
      → (it.position == s.end_position) ≡ true
      → ((it.sub_range + 1) == get_size r) ≡ true
      → skip_ended (suc fuel) r it ≡ some (record it { sub_range = it.sub_range + 1 })
  unfolding skip_ended
  skip_last fuel q last = ground arith

within :
    (r : Range) (it : PythonIterator) (s : SubRange) (rest : List SubRange)
    → Stands r it (s ∷ rest)
    → (it.position == s.end_position) ≡ false
    → it.position < s.end_position
within r it s rest (sum, left, short, proper) q = ground arith

at_end :
    (f : ReferenceFactory) (fuel : ℕ) (r : Range) (it : PythonIterator) (s : SubRange)
    → Stands r it (s ∷ [])
    → (it.position == s.end_position) ≡ true
    → (it' : PythonIterator) × (skip_ended (suc fuel) r it ≡ some it') × Skipped f r (s ∷ []) it it'
at_end f fuel r it s (sum, left, short, proper) q =
    let (apart, here) = Stands-here r it s [] (sum, left, short, proper) in
    let (none_visited, none_left) =
      visits_from-ended f r.raw s [] it.position ((==_iff it.position s.end_position).0 q) in
    (
      record it { sub_range = it.sub_range + 1 },
      skip_last r it s apart here fuel q (ground arith),
      record {
        left' = [];
        stands = omega arith;
        inside = tt;
        visits_same = sym none_visited;
        positions_same = sym none_left;
      },
    )

Stands-next :
    (r : Range) (it : PythonIterator) (s s' : SubRange) (rest : List SubRange)
    → Stands r it (s ∷ s' ∷ rest)
    → Stands r (record { position = s'.begin_position; sub_range = it.sub_range + 1 }) (s' ∷ rest)
Stands-next r it s s' rest (sum, left, short, proper) =
    let one : suc it.sub_range ≡ it.sub_range + 1 = omega arith in
    (
      omega arith,
      subst (λ n. drop n r.sub_ranges ≡ s' ∷ rest) one
          (drop-get_elem? it.sub_range r.sub_ranges s (s' ∷ rest) left).1,
      proper.0,
      proper.1,
    )

stays :
    (f : ReferenceFactory) (fuel : ℕ) (r : Range) (it : PythonIterator) (s : SubRange)
    (rest : List SubRange)
    → Stands r it (s ∷ rest)
    → (it.position == s.end_position) ≡ false
    → (it' : PythonIterator) × (skip_ended (suc fuel) r it ≡ some it')
      × Skipped f r (s ∷ rest) it it'
stays f fuel r it s rest st q =
    let (apart, here) = Stands-here r it s rest st in
    (
      it,
      skip_inside r it s apart here fuel q,
      record {
        left' = s ∷ rest;
        stands = st;
        inside = within r it s rest st q;
        visits_same = refl;
        positions_same = refl;
      },
    )

pub skip_ended-Skipped :
    (f : ReferenceFactory) (fuel : ℕ) (r : Range) (it : PythonIterator) (s : SubRange)
    (rest : List SubRange)
    → length rest < fuel
    → Stands r it (s ∷ rest)
    → (it' : PythonIterator) × (skip_ended fuel r it ≡ some it') × Skipped f r (s ∷ rest) it it'
skip_ended-Skipped f zero r it s rest h st = absurd (omega arith)
skip_ended-Skipped f (suc fuel) r it s [] h st = elim (Bool-cases (it.position == s.end_position)) [
  | inr q ↦ stays f fuel r it s [] st q
  | inl q ↦ at_end f fuel r it s st q
]
skip_ended-Skipped f (suc fuel) r it s (s' ∷ rest) h st =
    elim (Bool-cases (it.position == s.end_position)) [
      | inr q ↦ stays f fuel r it s (s' ∷ rest) st q
      | inl q ↦
          let (apart, here) = Stands-here r it s (s' ∷ rest) st in
          let next : PythonIterator = record {
            position = s'.begin_position;
            sub_range = it.sub_range + 1;
          } in
          let st' = Stands-next r it s s' rest st in
          let (apart', here') = Stands-here r next s' rest st' in
          let (it', run, k) = skip_ended-Skipped f fuel r next s' rest (omega (arith, h)) st' in
          let (none_visited, none_left) =
            visits_from-ended f r.raw s (s' ∷ rest) it.position
              ((==_iff it.position s.end_position).0 q) in
          (
            it',
            skip_next r it s apart here fuel s' q apart' here' ∙ run,
            record {
              left' = k.left';
              stands = k.stands;
              inside = k.inside;
              visits_same = k.visits_same ∙ sym none_visited;
              positions_same = k.positions_same ∙ sym none_left;
            },
          )
    ]
