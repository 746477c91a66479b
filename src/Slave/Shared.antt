-- ===== src/Slave/Shared.antt =====
-- Slave::getSharedBufferName of src/slave/slave.cpp: the hosts of a machine that ask for a buffer of
-- one name and size share it.
use megastructure.Common.{
  ℕ, ◌≡◌, refl, inl, inr, false, List, [], ◌∷◌, Option, none, some, String, ◌==◌, if◌then◌else◌,
  str_eq, eq_iff, arith, Option-cases, Bool-cases, ==_refl, ==_iff, subst, sym, ap, ◌∙◌,
}

pub record SharedBuffer : Type 0 where
  pub shared_name : String
  pub size : ℕ

-- A std::map, whose order is not modelled.
abbrev pub SharedBufferMap : Type 0
SharedBufferMap = List (String × SharedBuffer)

unfoldable pub find_buffer : String → SharedBufferMap → Option SharedBuffer
find_buffer name [] = none
find_buffer name ((n, b) ∷ rest) = if str_eq n name then some b else find_buffer name rest

-- m_sharedBuffers[ strBufferName ] = ...
unfoldable pub put_buffer : String → SharedBuffer → SharedBufferMap → SharedBufferMap
put_buffer name b [] = (name, b) ∷ []
put_buffer name b ((n, b') ∷ rest) =
    let later = put_buffer name b rest in if str_eq n name then (n, b) ∷ rest else (n, b') ∷ later

-- `unique` is what generateUniqueString answers.
unfoldable pub get_shared_buffer_name :
    String → String → ℕ → SharedBufferMap → String × SharedBufferMap
unfolding find_buffer put_buffer
get_shared_buffer_name unique name size buffers =
    let fresh : String × SharedBufferMap =
      (unique, put_buffer name (record { shared_name = unique; size = size }) buffers) in
    elim (find_buffer name buffers) [
      | none ↦ fresh
      | some b ↦ if b.size == size then (b.shared_name, buffers) else fresh
    ]

pub find-put_buffer :
    (name other : String) (b : SharedBuffer) (buffers : SharedBufferMap)
    → find_buffer other (put_buffer name b buffers)
      ≡ (if str_eq name other then some b else find_buffer other buffers)
unfolding find_buffer put_buffer
find-put_buffer name other b [] = refl
find-put_buffer name other b ((n, b') ∷ rest) = elim (Bool-cases (str_eq n name)) [
  | inl q ↦
      let same = (eq_iff n name).0 q in
      subst
        (λ m.
          find_buffer other (put_buffer m b ((n, b') ∷ rest))
          ≡ (if str_eq m other then some b else find_buffer other ((n, b') ∷ rest)))
        same (ground (arith, (eq_iff n n).1 refl))
  | inr q ↦
      ground
        (arith, find-put_buffer name other b rest, eq_iff name other, eq_iff n other, eq_iff n name)
]

-- The buffer that a request answers with is in the map after it.
get_shared_buffer_name-found :
    (unique name : String) (size : ℕ) (buffers : SharedBufferMap)
    → find_buffer name (get_shared_buffer_name unique name size buffers).1
      ≡ some (record {
        shared_name = (get_shared_buffer_name unique name size buffers).0;
        size = size;
      })
unfolding get_shared_buffer_name
get_shared_buffer_name-found unique name size buffers =
    let new : SharedBuffer = record { shared_name = unique; size = size } in
    let put = find-put_buffer name name new buffers in
    let self = (eq_iff name name).1 refl in
    let here : find_buffer name (put_buffer name new buffers) ≡ some new = ground arith in
    elim (Option-cases (find_buffer name buffers)) [
      | inl q ↦ rw (get_shared_buffer_name, q) here
      | inr (b, q) ↦ elim (Bool-cases (b.size == size)) [
        | inl e ↦
            let sizes = (==_iff b.size size).0 e in
            rw (get_shared_buffer_name, q, e)
              (q ∙ ap (λ (n : ℕ). some (record b { size = n })) sizes)
        | inr e ↦ rw (get_shared_buffer_name, q, e) here
      ]
    ]

-- A request for the same name and size answers with the buffer that is there and changes nothing.
get_shared_buffer_name-again :
    (unique name : String) (b : SharedBuffer) (buffers : SharedBufferMap)
    → find_buffer name buffers ≡ some b
    → get_shared_buffer_name unique name b.size buffers ≡ (b.shared_name, buffers)
unfolding get_shared_buffer_name
get_shared_buffer_name-again unique name b buffers q = let self = ==_refl b.size in ground arith

get_shared_buffer_name-other :
    (unique name other : String) (size : ℕ) (buffers : SharedBufferMap)
    → str_eq name other ≡ false
    → find_buffer other (get_shared_buffer_name unique name size buffers).1
      ≡ find_buffer other buffers
unfolding get_shared_buffer_name
get_shared_buffer_name-other unique name other size buffers e =
    let new : SharedBuffer = record { shared_name = unique; size = size } in
    let put = find-put_buffer name other new buffers in
    elim (Option-cases (find_buffer name buffers)) [
      | inl q ↦ rw (get_shared_buffer_name, q) (ground arith)
      | inr (b, q) ↦ elim (Bool-cases (b.size == size)) [
        | inl w ↦ rw (get_shared_buffer_name, q, w) refl
        | inr w ↦ rw (get_shared_buffer_name, q, w) (ground arith)
      ]
    ]

-- What the hosts ask for: a name that is fresh for the request, the name of the buffer and its size.
pub record BufferRequest : Type 0 where
  pub unique : String
  pub name : String
  pub size : ℕ

abbrev pub request_all : List BufferRequest → SharedBufferMap → SharedBufferMap
request_all [] buffers = buffers
request_all (r ∷ rest) buffers =
    request_all rest (get_shared_buffer_name r.unique r.name r.size buffers).1

-- Every request for the buffer has the size.
abbrev pub Agree : String → ℕ → List BufferRequest → Type 0
Agree name size [] = Unit {0}
Agree name size (r ∷ rest) = (r.name ≡ name → r.size ≡ size) × Agree name size rest

request_all-kept :
    (name : String) (b : SharedBuffer) (rs : List BufferRequest) (buffers : SharedBufferMap)
    → Agree name b.size rs
    → find_buffer name buffers ≡ some b
    → find_buffer name (request_all rs buffers) ≡ some b
request_all-kept name b [] buffers agree q = q
request_all-kept name b (r ∷ rs) buffers (same, agree) q =
    request_all-kept name b rs (get_shared_buffer_name r.unique r.name r.size buffers).1 agree
      (elim (Bool-cases (str_eq r.name name)) [
        | inl e ↦
            let names = (eq_iff r.name name).0 e in
            let there = subst (λ n. find_buffer n buffers ≡ some b) (sym names) q in
            let unchanged =
              subst (λ s. (get_shared_buffer_name r.unique r.name s buffers).1 ≡ buffers)
                (sym (same names))
                (ap (λ (a : String × SharedBufferMap). a.1)
                  (get_shared_buffer_name-again r.unique r.name b buffers there)) in
            ap (find_buffer name) unchanged ∙ q
        | inr e ↦ get_shared_buffer_name-other r.unique r.name name r.size buffers e ∙ q
      ])

-- Once a host has asked for a buffer, every later request for a buffer of that name and size is
-- answered with the same shared name and changes nothing, whatever is asked for between, if no
-- request between asks for that name with another size.
pub get_shared_buffer_name_lem :
    (unique unique' name : String) (size : ℕ) (rs : List BufferRequest) (buffers : SharedBufferMap)
    → Agree name size rs
    → get_shared_buffer_name unique' name size
        (request_all rs (get_shared_buffer_name unique name size buffers).1)
      ≡ (
        (get_shared_buffer_name unique name size buffers).0,
        request_all rs (get_shared_buffer_name unique name size buffers).1,
      )
get_shared_buffer_name_lem unique unique' name size rs buffers agree =
    let first = get_shared_buffer_name unique name size buffers in
    let b : SharedBuffer = record { shared_name = first.0; size = size } in
    get_shared_buffer_name-again unique' name b (request_all rs first.1) (
      request_all-kept name b rs first.1 agree
        (get_shared_buffer_name-found unique name size buffers))
