-- ===== src/Detection/Durations/Window.antt =====
-- When two times count as within a window of each other.
use native.Mathlib.Decide.{dec_lt}
use belay_engine.Prelude.{ℕ, true, ◌+◌, ◌≡◌, ◌↔◌, ◌⊎◌, inl, inr, arith, ◌≤◌, ◌<◌}
use belay_engine.Detection.Durations.{max_duration, within}
use belay_engine.Experience.Model.{Time}

within-close :
    (window t u : ℕ)
    → window < max_duration
    → t ≤ u + window
    → u ≤ t + window
    → within window t u ≡ true
unfolding within
within-close window t u w h k = ground (arith, w, h, k)

within-far :
    (window t u : ℕ) → window < max_duration → t + max_duration < u → within window t u ≡ true
unfolding within
within-far window t u w h = ground (arith, w, h)

within_sound :
    (window t u : ℕ)
    → window < max_duration
    → within window t u ≡ true
    → u ≤ t + max_duration
    → (t ≤ u + window) × (u ≤ t + window)
unfolding within
within_sound window t u w h k = ground (arith, w, h, k)

-- For a window below the largest duration, two times count as within it exactly if they are at most
-- the window apart, or the first lies more than the largest duration (some 292 years) before the
-- second: there the difference stops at the smallest duration, which is its own negation.
pub within_iff :
    (window : ℕ) (t u : Time)
    → window < max_duration
    → (within window t u ≡ true) ↔ (((t ≤ u + window) × (u ≤ t + window)) ⊎ (t + max_duration < u))
within_iff window t u w = (
  λ h. elim (dec_lt (t + max_duration) u) [
    | yes far ↦ inr far
    | no close ↦ inl (within_sound window t u w h (omega (arith, close)))
  ],
  λ h. elim h [
    | inl (a, b) ↦ within-close window t u w a b
    | inr far ↦ within-far window t u w far
  ],
)
