-- ===== src/E1000/Desc/Index.antt =====
-- The indices of `DescRing`: how many descriptors are in use, and what each step does to them.
use native.Mathlib.Nat.{mod-eq_of_lt, mod_self}
use native.Mathlib.Decide.{ℕ_discrete}
use driver_workflow.Prelude.{ℕ, ◌+◌, ◌-◌, ◌%◌, ◌<◌, ◌≡◌, ◌↔◌, true, arith, ◌==◌, if◌then◌else◌, leb}
use driver_workflow.E1000.Desc.{DescRing, unused_count, is_full, advance_use, advance_clean}

-- Both indices stand in the ring.
pub record IsInRing (r : DescRing) : Type 0 where
  pub use_in : r.next_to_use < r.count
  pub clean_in : r.next_to_clean < r.count

-- The descriptors from `next_to_clean` up to `next_to_use`.
abbrev pub in_use : DescRing → ℕ
in_use r =
    if leb r.next_to_clean r.next_to_use
    then r.next_to_use - r.next_to_clean
    else r.count + r.next_to_use - r.next_to_clean

pub next-mod : (n c : ℕ) → n < c → (n + 1) % c ≡ (if n + 1 == c then 0 else n + 1)
next-mod n c h = elim (ℕ_discrete (n + 1) c) [
  | yes e ↦ rw e (ground (arith, mod_self c))
  | no ne ↦ ground (arith, mod-eq_of_lt {n = n + 1} {m = c} (omega arith))
]

-- With both indices in the ring, one of its `count` descriptors is never used; the others are in
-- use or unused.
pub unused_count-in_use : (r : DescRing) → IsInRing r → unused_count r + in_use r + 1 ≡ r.count
unfolding unused_count
unused_count-in_use r v = ground (arith, v.use_in, v.clean_in)

pub is_full_iff : (r : DescRing) → IsInRing r → (is_full r ≡ true) ↔ (in_use r + 1 ≡ r.count)
unfolding is_full
is_full_iff r v = ground (arith, unused_count-in_use r v)

-- Taking a descriptor of a ring that is not full, and giving one back that is in use.
pub in_use-advance_use :
    (r : DescRing)
    → IsInRing r
    → in_use r + 1 < r.count
    → IsInRing (advance_use r) × (in_use (advance_use r) ≡ in_use r + 1)
unfolding advance_use
in_use-advance_use r v h = ground (arith, next-mod r.next_to_use r.count v.use_in, v.clean_in)

pub in_use-advance_clean :
    (r : DescRing)
    → IsInRing r
    → 0 < in_use r
    → IsInRing (advance_clean r) × (in_use (advance_clean r) + 1 ≡ in_use r)
unfolding advance_clean
in_use-advance_clean r v h = ground (arith, next-mod r.next_to_clean r.count v.clean_in, v.use_in)
