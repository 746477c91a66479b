-- ===== src/Slave/Loads.antt =====
-- How the load of the hosts of a program completes with the loads of the single hosts.
use megastructure.Common.{
  ℕ, ◌≡◌, refl, inl, inr, Bool, true, false, ◌&&◌, List, [], ◌∷◌, some, if◌then◌else◌, arith,
  Bool-cases, ap, ◌∙◌,
}
use megastructure.Queue.{completes}
use megastructure.Slave.Load.{
  LoadHost, LoadHosts, erase_activity, has_activity, is_empty, load_hosts_activity_complete,
}
use megastructure.Slave.State.{SlaveState, post}

-- The loads that have completed, in the order in which they did: each of the activities once.
abbrev pub AnsweredBy : List (ℕ × LoadHost) → List ℕ → Type 0
AnsweredBy [] ids = ids ≡ []
AnsweredBy ((b, done) ∷ rest) ids =
    (has_activity b ids ≡ true) × AnsweredBy rest (erase_activity b ids)

abbrev pub complete_all : ℕ → List (ℕ × LoadHost) → LoadHosts → SlaveState → LoadHosts × SlaveState
complete_all a [] l s = (l, s)
complete_all a ((b, done) ∷ rest) l s =
    let (l', s') = (load_hosts_activity_complete a b (some done) l s).0 in complete_all a rest l' s'

abbrev pub all_success : List (ℕ × LoadHost) → Bool
all_success [] = true
all_success ((b, done) ∷ rest) = done.success && all_success rest

abbrev without : ℕ → Bool → LoadHosts → LoadHosts
without b success l = record l {
  load_activities = erase_activity b l.load_activities;
  success = l.success && success;
}

complete_one :
    (a b : ℕ) (done : LoadHost) (l : LoadHosts) (s : SlaveState)
    → has_activity b l.load_activities ≡ true
    → (load_hosts_activity_complete a b (some done) l s).0 ≡ (
      without b done.success l,
      if is_empty (erase_activity b l.load_activities) then post (completes a) s else s,
    )
unfolding load_hosts_activity_complete
complete_one a b done l s here = elim (Bool-cases done.success) [
  | inl e ↦ rw (here, e) (elim (Bool-cases l.success) [ inl d ↦ rw (d) refl | inr d ↦ rw (d) refl ])
  | inr e ↦ rw (here, e) (elim (Bool-cases l.success) [ inl d ↦ rw (d) refl | inr d ↦ rw (d) refl ])
]

not_empty : (c : ℕ) (ids : List ℕ) → has_activity c ids ≡ true → is_empty ids ≡ false
not_empty c [] e = absurd (ground arith)
not_empty c (x ∷ ids) e = refl

and_true : (x : Bool) → x ≡ (x && true)
and_true true = refl
and_true false = refl

and_assoc : (x y z : Bool) → ((x && y) && z) ≡ (x && (y && z))
and_assoc true y z = refl
and_assoc false y z = refl

-- When the loads of the hosts have completed, each once and in any order, the load of the hosts has
-- posted its own completion exactly once, after the last of them, and it is successful if it was
-- before and all of them are.
pub load_hosts_completes :
    (a b : ℕ) (done : LoadHost) (rest : List (ℕ × LoadHost)) (l : LoadHosts) (s : SlaveState)
    → AnsweredBy ((b, done) ∷ rest) l.load_activities
    → complete_all a ((b, done) ∷ rest) l s ≡ (
      record l { load_activities = []; success = l.success && all_success ((b, done) ∷ rest) },
      post (completes a) s,
    )
unfolding load_hosts_activity_complete
load_hosts_completes a b done [] l s (here, none_left) =
    let left : LoadHosts = without b done.success l in
    complete_one a b done l s here
    ∙ rw (none_left) (
        ap
          (λ (x : Bool).
            (record l { load_activities = []; success = l.success && x }, post (completes a) s))
          (and_true done.success))
load_hosts_completes a b done ((c, done') ∷ rest) l s (here, there) =
    let go = load_hosts_completes a c done' rest (without b done.success l) s there in
    ap (λ (r : LoadHosts × SlaveState). complete_all a ((c, done') ∷ rest) r.0 r.1)
      (complete_one a b done l s here)
    ∙ rw (not_empty c (erase_activity b l.load_activities) there.0) (
        go
        ∙ ap (λ (x : Bool). (record l { load_activities = []; success = x }, post (completes a) s))
            (and_assoc l.success done.success (all_success ((c, done') ∷ rest))))
