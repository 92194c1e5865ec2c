-- ===== src/E1000/Hw/Tests.antt =====
-- The adaptive spacing on concrete inputs.
use driver_workflow.Prelude.{ℕ, ◌≡◌, refl, List, [], ◌∷◌}
use driver_workflow.Sample.{write_log}
use driver_workflow.E1000.Hw.{new, reset_adaptive, update_adaptive, raise_ifs, drop_ifs}
use driver_workflow.E1000.Hw.Adaptive.{Adaptive, updates, updates-Adaptive}

-- Two busy periods and a quiet one.
abbrev periods : List (ℕ × ℕ)
periods = (5000, 2000) ∷ (5000, 2000) ∷ (0, 10) ∷ []

written :
    (updates periods (reset_adaptive (new []))).world
    ≡ (0x458, 0) ∷ (0x458, 72) ∷ (0x458, 64) ∷ (0x458, 0) ∷ []
unfolding update_adaptive raise_ifs drop_ifs reset_adaptive
written = refl

updates-Adaptive_example : Adaptive (updates periods (reset_adaptive (new [])))
updates-Adaptive_example = updates-Adaptive (new []) periods
