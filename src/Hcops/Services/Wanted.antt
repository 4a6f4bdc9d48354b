-- ===== src/Hcops/Services/Wanted.antt =====
-- internal/hcops/load_balancer.go: the ports that a service wants to be forwarded, and the set of
-- listen ports that `ReconcileHCLBServices` keeps.
use hcloud_cloud_controller.Common.{
  is_some, ℕ, Bool, true, false, ◌&&◌, ◌||◌, not, Option, none, some, List, [], ◌∷◌, ◌++◌, ◌≡◌,
  refl, sym, if◌then◌else◌, nat_eq, nat_eq_iff, mem, include, Eq-nat, arith, Bool-cases,
  Option-cases, inl, inr,
}
use hcloud_cloud_controller.Kube.{ServicePort}
use hcloud_cloud_controller.Hcops.Services.{is_tcp, exclude, port_set}

-- Where the service wants traffic of the listen port to go: the node port of its last TCP port of
-- that number.
abbrev pub forwarded : List ServicePort → ℕ → Option ℕ
forwarded [] p = none
forwarded (port ∷ ports) p = elim (forwarded ports p) [
  | some destination ↦ some destination
  | none ↦ if is_tcp port && nat_eq port.port p then some port.node_port else none
]

abbrev pub first_of : Option ℕ → Option ℕ → Option ℕ
first_of (some d) e = some d
first_of none e = e

pub forwarded-tcp :
    (port : ServicePort) (ports : List ServicePort) (p : ℕ)
    → is_tcp port ≡ true
    → forwarded (port ∷ ports) p
      ≡ first_of (forwarded ports p) (if nat_eq port.port p then some port.node_port else none)
forwarded-tcp port ports p e = elim (Option-cases (forwarded ports p)) [
  | inl later ↦ rw (later, e) refl
  | inr (d, later) ↦ rw later refl
]

pub forwarded-other :
    (port : ServicePort) (ports : List ServicePort) (p : ℕ)
    → is_tcp port ≡ false
    → forwarded (port ∷ ports) p ≡ forwarded ports p
forwarded-other port ports p e = elim (Option-cases (forwarded ports p)) [
  | inl later ↦ rw (later, e) refl
  | inr (d, later) ↦ rw later refl
]

pub first_of-first_of :
    (x d : Option ℕ) (t : Bool) (n : ℕ)
    → first_of (first_of x (if t then some n else none)) d ≡ first_of x (if t then some n else d)
first_of-first_of (some m) d t n = refl
first_of-first_of none d true n = refl
first_of-first_of none d false n = refl

pub is_some-first_of :
    (x : Option ℕ) (t m : Bool) (n : ℕ)
    → (m && not (is_some (first_of x (if t then some n else none))))
      ≡ ((m && not t) && not (is_some x))
is_some-first_of (some k) t m n = ground arith
is_some-first_of none true m n = ground arith
is_some-first_of none false m n = ground arith

pub deleted_twice :
    (s t : Bool) (d : Option ℕ)
    → (if t then none else (if s then none else d)) ≡ (if s || t then none else d)
deleted_twice true true d = refl
deleted_twice true false d = refl
deleted_twice false t d = refl

pub mem-exclude : (p q : ℕ) (s : List ℕ) → mem p (exclude q s) ≡ (mem p s && not (nat_eq q p))
unfolding mem exclude
mem-exclude p q [] = refl
mem-exclude p q (r ∷ s) =
    ground (arith, mem-exclude p q s, nat_eq_iff r q, nat_eq_iff q p, nat_eq_iff r p)

mem-snoc : (p q : ℕ) (s : List ℕ) → mem p (s ++ q ∷ []) ≡ (mem p s || nat_eq q p)
unfolding mem
mem-snoc p q [] = ground arith
mem-snoc p q (r ∷ s) = ground (arith, mem-snoc p q s)

mem-include : (p q : ℕ) (s : List ℕ) → mem p (include q s) ≡ (mem p s || nat_eq q p)
unfolding include
mem-include p q s = elim (Bool-cases (mem q s)) [
  | inr new ↦ rw new (mem-snoc p q s)
  | inl old ↦ rw old (elim (Bool-cases (nat_eq q p)) [
    | inl same ↦ rw (sym ((nat_eq_iff q p).0 same), old) refl
    | inr other ↦ rw other (ground arith)
  ])
]

pub mem-port_set : (p : ℕ) (l s : List ℕ) → mem p (port_set l s) ≡ (mem p l || mem p s)
unfolding mem port_set
mem-port_set p [] s = refl
mem-port_set p (q ∷ l) s = ground (arith, mem-port_set p l (include q s), mem-include p q s)
