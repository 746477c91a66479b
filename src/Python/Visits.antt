-- ===== src/Python/Visits.antt =====
-- What a scan of the iterator finds.
use megastructure.Common.{
  ℕ, zero, suc, ◌≡◌, refl, inl, inr, Bool, true, false, ◌||◌, List, [], ◌∷◌, some, ◌==◌,
  if◌then◌else◌, ◌+◌, ◌-◌, ◌≤◌, ◌<◌, get_elem?, arith, subst, sym, ◌∙◌, Bool-cases, ==_refl,
}
use megastructure.Python.Iterator.{
  SubRange, Range, ReferenceFactory, PythonIterator, get_size, skip_ended, is_valid,
  scan_to_next_or_end,
}
use megastructure.Python.Scan.{
  visits_from, Stands, positions_from, Inside, Stands-here, skip_ended-Skipped,
}

-- The iterator stands at the first of `todo`, or at the end if there are none.
abbrev pub First : ReferenceFactory → Range → List SubRange → PythonIterator → List (ℕ × ℕ) → Type 0
First f r [] it todo = todo ≡ []
First f r (s ∷ rest) it todo =
    todo ≡ (s.type, it.position) ∷ visits_from f r.raw (s ∷ rest) (it.position + 1)

-- What a scan leaves of the visits `todo`, and of the positions.
pub record Scanned (f : ReferenceFactory) (r : Range) (todo : List (ℕ × ℕ)) (bound : ℕ)
    (it' : PythonIterator) : Type 0 where
  pub left' : List SubRange
  pub stands : Stands r it' left'
  pub inside : Inside left' it'
  pub found : visits_from f r.raw left' it'.position ≡ todo
  pub first : First f r left' it' todo
  pub bounded : positions_from left' it'.position ≤ bound

weaken :
    (f : ReferenceFactory) (r : Range) (todo todo' : List (ℕ × ℕ)) (bound bound' : ℕ)
    (it' : PythonIterator)
    → todo ≡ todo'
    → bound ≤ bound'
    → Scanned f r todo bound it'
    → Scanned f r todo' bound' it'
weaken f r todo todo' bound bound' it' e h k =
    subst (λ t. Scanned f r t bound' it') e
      (record {
        left' = k.left';
        stands = k.stands;
        inside = k.inside;
        found = k.found;
        first = k.first;
        bounded = omega (arith, h, k.bounded);
      })

-- One position further, in the same subrange.
visits_from-step :
    (f : ReferenceFactory) (raw : Bool) (s : SubRange) (rest : List SubRange) (position : ℕ)
    → position < s.end_position
    → visits_from f raw (s ∷ rest) position ≡ (
        if raw || is_valid f s.type position
        then (s.type, position) ∷ visits_from f raw (s ∷ rest) (position + 1)
        else visits_from f raw (s ∷ rest) (position + 1))
visits_from-step f raw s rest position h =
    let more : s.end_position - position ≡ suc (s.end_position - (position + 1)) = omega arith in
    rw (more) (elim (Bool-cases (raw || is_valid f s.type position)) [
      | inl e ↦ rw (e) refl
      | inr e ↦ rw (e) refl
    ])

module _ (f : ReferenceFactory) (fuel : ℕ) (r : Range) (it it' : PythonIterator)
    (run : skip_ended (get_size r + 1) r it ≡ some it') where
  scan_end : (it'.sub_range == get_size r) ≡ true → scan_to_next_or_end f (suc fuel) r it ≡ some it'
  unfolding scan_to_next_or_end
  scan_end e = ground arith

  scan_here :
      (s : SubRange)
      → (it'.sub_range == get_size r) ≡ false
      → get_elem? r.sub_ranges it'.sub_range ≡ some s
      → scan_to_next_or_end f (suc fuel) r it ≡ (
          if r.raw || is_valid f s.type it'.position
          then some it'
          else scan_to_next_or_end f fuel r (record it' { position = it'.position + 1 }))
  unfolding scan_to_next_or_end
  scan_here s apart here = elim (Bool-cases (r.raw || is_valid f s.type it'.position)) [
    | inl e ↦ rw (e) (ground arith)
    | inr e ↦ rw (e) (ground arith)
  ]

-- What a scan with this fuel does, wherever it starts.
unfoldable pub Scans : ReferenceFactory → ℕ → Range → Type 0
Scans f fuel r =
    (it : PythonIterator) (s : SubRange) (rest : List SubRange)
    → Stands r it (s ∷ rest)
    → positions_from (s ∷ rest) it.position < fuel
    → (it' : PythonIterator) × (scan_to_next_or_end f fuel r it ≡ some it')
      × Scanned f r (visits_from f r.raw (s ∷ rest) it.position)
          (positions_from (s ∷ rest) it.position) it'

-- The outer loop once the inner one has ended at `it'`, with `left'` before it.
scan-left :
    (f : ReferenceFactory) (fuel : ℕ) (r : Range) (it : PythonIterator) (todo : List (ℕ × ℕ))
    (bound : ℕ)
    → Scans f fuel r
    → bound < suc fuel
    → (it' : PythonIterator) → skip_ended (get_size r + 1) r it ≡ some it'
    → (left' : List SubRange) → Stands r it' left'
    → Inside left' it'
    → visits_from f r.raw left' it'.position ≡ todo
    → positions_from left' it'.position ≡ bound
    → (it'' : PythonIterator) × (scan_to_next_or_end f (suc fuel) r it ≡ some it'')
      × Scanned f r todo bound it''
unfolding Scans
scan-left f fuel r it todo bound again h it' run [] stands inside vs ps = (
  it',
  scan_end f fuel r it it' run (ground (arith, ==_refl (get_size r), stands)),
  record {
    left' = [];
    stands = stands;
    inside = tt;
    found = vs;
    first = sym vs;
    bounded = omega arith;
  },
)
scan-left f fuel r it todo bound again h it' run (s' ∷ rest') stands inside vs ps =
    let (apart, here) = Stands-here r it' s' rest' stands in
    let scan = scan_here f fuel r it it' run s' apart here in
    let step = visits_from-step f r.raw s' rest' it'.position inside in
    elim (Bool-cases (r.raw || is_valid f s'.type it'.position)) [
      | inl e ↦
          let visited : visits_from f r.raw (s' ∷ rest') it'.position
              ≡ (s'.type, it'.position) ∷ visits_from f r.raw (s' ∷ rest') (it'.position + 1) =
            ground arith in
          (
            it',
            ground arith,
            record {
              left' = s' ∷ rest';
              stands = stands;
              inside = inside;
              found = vs;
              first = sym vs ∙ visited;
              bounded = omega arith;
            },
          )
      | inr e ↦
          let passed : visits_from f r.raw (s' ∷ rest') it'.position
              ≡ visits_from f r.raw (s' ∷ rest') (it'.position + 1) =
            ground arith in
          let (it'', run', k) =
            again (record it' { position = it'.position + 1 }) s' rest'
              (stands.0, stands.1, omega arith, stands.3) (omega arith) in
          (
            it'',
            ground arith,
            weaken f r (visits_from f r.raw (s' ∷ rest') (it'.position + 1)) todo
                (positions_from (s' ∷ rest') (it'.position + 1)) bound it'' (sym passed ∙ vs)
                (omega arith) k,
          )
    ]

pub scan-Scanned : (f : ReferenceFactory) (fuel : ℕ) (r : Range) → Scans f fuel r
unfolding Scans
scan-Scanned f zero r it s rest st h = absurd (omega arith)
scan-Scanned f (suc fuel) r it s rest st h =
    let (it', run, k) =
      skip_ended-Skipped f (get_size r + 1) r it s rest (omega (arith, st.0)) st in
    scan-left f fuel r it (visits_from f r.raw (s ∷ rest) it.position)
      (positions_from (s ∷ rest) it.position) (scan-Scanned f fuel r) h it' run k.left' k.stands
      k.inside k.visits_same k.positions_same
