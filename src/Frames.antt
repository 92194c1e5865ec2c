-- ===== src/Frames.antt =====
-- Receives in a row on a ring of 256 slots: what the calls give, in the order of the slots. Both
-- receive paths that keep their slots filled are stated over it.
use driver_workflow.Prelude.{
  ℕ, zero, suc, ◌+◌, ◌%◌, ◌≤◌, ◌<◌, ◌≡◌, ◌≢◌, refl, sym, subst, Option, List, [], ◌∷◌, arith,
}

abbrev pub slots : ℕ
slots = 256

module _ {ℓ} {B : Type ℓ} where
  -- What stands in `n` slots from an index on.
  abbrev pub run : (ℕ → B) → ℕ → ℕ → List B
  run g zero i = []
  run g (suc n) i = g i ∷ run g n ((i + 1) % slots)

  -- Where only the slot `c` differs, a run that ends before it is the same.
  run_kept :
      (g h : ℕ → B) (c n t i : ℕ)
      → c < slots
      → ((j : ℕ) → j ≢ c → h j ≡ g j)
      → t + n ≤ 255
      → i ≡ (c + 1 + t) % slots
      → run h n i ≡ run g n i
  run_kept g h c zero t i in_ring kept short at = refl
  run_kept g h c (suc n) t i in_ring kept short at =
      let apart : i ≢ c = omega (arith, at, in_ring, short) in
      rw
        (
          kept i apart,
          run_kept g h c n (suc t) ((i + 1) % slots) in_ring kept (omega (arith, short))
              (omega (arith, at)),
        )
        refl

-- A call that takes the next slot: it gives what the slot has for it, moves on by one slot, and leaves
-- the others and what they have.
pub record Takes {ℓ κ} {A : Type ℓ} {S : Type κ} (call : S → Option A × S) (next : S → ℕ)
    (outcome : S → ℕ → Option A) (Written : S → ℕ → Type 0) (Good : S → Type 0) (e : S)
    : Type (ℓ ⊔ κ) where
  pub gives : (call e).0 ≡ outcome e (next e)
  pub good : Good (call e).1
  pub moves : next (call e).1 ≡ (next e + 1) % slots
  pub written_kept : (j : ℕ) → j ≢ next e → Written e j → Written (call e).1 j
  pub outcome_kept : (j : ℕ) → j ≢ next e → outcome (call e).1 j ≡ outcome e j

-- Calls in a row of an operation of a device.
module _ {ℓ κ} {A : Type ℓ} {S : Type κ} (call : S → Option A × S) where
  -- What `n` calls return, and the device after them.
  unfoldable pub calls : ℕ → S → List (Option A) × S
  calls zero e = ([], e)
  calls (suc n) e = let rest = calls n (call e).1 in ((call e).0 ∷ rest.0, rest.1)

  -- Where `n` slots from the next one on are written, `n` calls give what they have, in their order.
  pub calls-run :
      (next : S → ℕ) (outcome : S → ℕ → Option A) (Written : S → ℕ → Type 0) (Good : S → Type 0)
      → ((e : S) → Good e → next e < slots)
      → ((e : S) → Good e → Written e (next e) → Takes call next outcome Written Good e)
      → (n : ℕ) (e : S) → n ≤ slots
      → Good e
      → ((j : ℕ) → j < n → Written e ((next e + j) % slots))
      → ((calls n e).0 ≡ run (outcome e) n (next e))
        × (next (calls n e).1 ≡ (next e + n) % slots)
        × Good (calls n e).1
  unfolding calls
  calls-run next outcome Written Good within takes zero e short v all =
      let h = within e v in (refl, omega (arith, h), v)
  calls-run next outcome Written Good within takes (suc n) e short v all =
      let i = next e in
      let h = within e v in
      let here : (i + 0) % slots ≡ i = omega (arith, h) in
      let t = takes e v (subst (Written e) here (all 0 (omega arith))) in
      let others : (j : ℕ) → j < n → Written (call e).1 ((next (call e).1 + j) % slots) = λ j lt.
        let at : (next (call e).1 + j) % slots ≡ (i + suc j) % slots = omega (arith, t.moves) in
        subst (Written (call e).1) (sym at) (
          t.written_kept ((i + suc j) % slots) (omega (arith, h, short, lt))
            (all (suc j) (omega (arith, lt)))) in
      let (rest, end, good) =
        calls-run next outcome Written Good within takes n (call e).1 (omega (arith, short)) t.good
          others in
      (
        rw
            (
              t.gives,
              rest,
              t.moves,
              run_kept (outcome e) (outcome (call e).1) i n 0 ((i + 1) % slots) h t.outcome_kept
                  (omega (arith, short)) (omega arith),
            )
            refl,
        omega (arith, end, t.moves),
        good,
      )
