-- ===== src/E1000/Hw/Adaptive.antt =====
-- The adaptive spacing of frames: `reset_adaptive` and `update_adaptive`.
use driver_workflow.Prelude.{
  ℕ, ◌+◌, ◌*◌, ◌≤◌, ◌<◌, ◌≡◌, ◌⊎◌, inl, inr, refl, Bool, true, false, not, List, [], ◌∷◌, arith,
  ◌==◌, if◌then◌else◌, ltb, Bool-cases, ==_iff, ==_false, ltb→lt,
}
use driver_workflow.Mmio.{Registers}
use driver_workflow.E1000.LinkRegs
use driver_workflow.E1000.LinkRegs.{min_num_xmits}
use driver_workflow.E1000.Hw.{E1000Hw, reset_adaptive, raise_ifs, drop_ifs, update_adaptive}

module _ ⦃io : Registers⦄ where
  -- Off with the spacing 0, or on with one of the steps from the least to the greatest spacing.
  pub record Adaptive (h : E1000Hw) : Type 0 where
    pub min_eq : h.ifs_min_val ≡ LinkRegs.ifs_min
    pub max_eq : h.ifs_max_val ≡ LinkRegs.ifs_max
    pub step_eq : h.ifs_step_size ≡ LinkRegs.ifs_step
    pub mode :
        ((h.in_ifs_mode ≡ false) × (h.current_ifs_val ≡ 0))
        ⊎ ((h.in_ifs_mode ≡ true)
            × ((k : ℕ) × (k ≤ 117)
                × (h.current_ifs_val ≡ LinkRegs.ifs_min + k * LinkRegs.ifs_step)))

  -- One update after the next, each with the collisions and the frames counted since the last.
  abbrev pub updates : List (ℕ × ℕ) → E1000Hw → E1000Hw
  updates [] h = h
  updates (d ∷ ds) h =
      updates ds (update_adaptive (record h { collision_delta = d.0; tx_packet_delta = d.1 }))

  drop_ifs-Adaptive : (h : E1000Hw) → Adaptive h → Adaptive (drop_ifs h)
  unfolding drop_ifs
  drop_ifs-Adaptive h a = record {
    min_eq = a.min_eq;
    max_eq = a.max_eq;
    step_eq = a.step_eq;
    mode = inl (refl, refl);
  }

  raised-Adaptive :
      (h : E1000Hw) (n k : ℕ)
      → Adaptive h
      → k ≤ 117
      → n ≡ LinkRegs.ifs_min + k * LinkRegs.ifs_step
      → Adaptive (record h {
        current_ifs_val = n;
        world = io.write h.world LinkRegs.ait n;
        in_ifs_mode = true;
      })
  raised-Adaptive h n k a small is = record {
    min_eq = a.min_eq;
    max_eq = a.max_eq;
    step_eq = a.step_eq;
    mode = inr (refl, (k, small, is));
  }

  raise_ifs-Adaptive : (h : E1000Hw) → Adaptive h → Adaptive (raise_ifs h)
  unfolding raise_ifs
  raise_ifs-Adaptive h a = elim (Bool-cases (ltb h.current_ifs_val h.ifs_max_val)) [
    | inr most ↦ rw most a
    | inl less ↦ elim a.mode [
      | inl (_, none_yet) ↦ rw less (
          raised-Adaptive h _ 0 a (omega arith) (
            let first : (h.current_ifs_val == 0) ≡ true = (==_iff h.current_ifs_val 0).1 none_yet in
            rw first a.min_eq))
      | inr (_, (k, _, is)) ↦
          let below : h.current_ifs_val < h.ifs_max_val =
            ltb→lt h.current_ifs_val h.ifs_max_val less in
          let later : (h.current_ifs_val == 0) ≡ false =
            ==_false h.current_ifs_val 0 (λ z. omega (arith, is, z)) in
          rw less (
            raised-Adaptive h _ (k + 1) a (omega (arith, is, below, a.max_eq))
              (rw later (omega (arith, is, below, a.max_eq, a.step_eq))))
    ]
  ]

  branch-Adaptive :
      (b : Bool) (x y : E1000Hw) → Adaptive x → Adaptive y → Adaptive (if b then x else y)
  branch-Adaptive true x y p q = p
  branch-Adaptive false x y p q = q

  update_adaptive-Adaptive : (h : E1000Hw) → Adaptive h → Adaptive (update_adaptive h)
  unfolding update_adaptive
  update_adaptive-Adaptive h a =
      let calm = branch-Adaptive _ (drop_ifs h) h (drop_ifs-Adaptive h a) a in
      let moved = branch-Adaptive _ (raise_ifs h) _ (raise_ifs-Adaptive h a) calm in
      let free = branch-Adaptive h.ifs_params_forced h _ a moved in
      branch-Adaptive (not h.adaptive_ifs) h _ a free

  counted-Adaptive :
      (h : E1000Hw) (c t : ℕ)
      → Adaptive h
      → Adaptive (record h { collision_delta = c; tx_packet_delta = t })
  counted-Adaptive h c t a = record {
    min_eq = a.min_eq;
    max_eq = a.max_eq;
    step_eq = a.step_eq;
    mode = a.mode;
  }

  updates-keeps : (ds : List (ℕ × ℕ)) (h : E1000Hw) → Adaptive h → Adaptive (updates ds h)
  updates-keeps [] h a = a
  updates-keeps (d ∷ ds) h a =
      updates-keeps ds _ (update_adaptive-Adaptive _ (counted-Adaptive h d.0 d.1 a))

  -- After `reset_adaptive` and any number of `update_adaptive`, with whatever collisions and frames
  -- counted in between, the mode is off with the spacing 0, or on with a spacing from `IFS_MIN` to
  -- `IFS_MAX` in steps of `IFS_STEP`.
  pub updates-Adaptive :
      (h : E1000Hw) (ds : List (ℕ × ℕ)) → Adaptive (updates ds (reset_adaptive h))
  unfolding reset_adaptive
  updates-Adaptive h ds =
      updates-keeps ds (reset_adaptive h)
        (record { min_eq = refl; max_eq = refl; step_eq = refl; mode = inl (refl, refl) })
