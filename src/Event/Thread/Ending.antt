-- ===== src/Event/Thread/Ending.antt =====
-- How a thread ends once it is told to stop.
use hpnl.Base.{ℕ, suc, ◌+◌, ◌≡◌, ◌≤◌, refl, Bool, true, arith, ◌⊎◌, inl, inr, pos, Bool-cases}
use hpnl.Event.Thread.{Body, Place, Step, ends}

-- A number of steps of the thread.
pub data Steps : ℕ → Body → Body → Type 0 where
  rest : {s : Body} → Steps 0 s s
  step : {n : ℕ} {s t u : Body} → Step s t → Steps n t u → Steps (suc n) s u

-- How many steps are left at most, and how many calls, after the thread is told to stop.
abbrev steps_left : Place → ℕ
steps_left Place.before = 3
steps_left Place.inside = 2
steps_left (Place.after ret) = 1
steps_left Place.ended = 0

abbrev calls_left : Place → ℕ
calls_left Place.before = 1
calls_left place = 0

Step-progress :
    {s t : Body}
    → s.done ≡ true
    → Step s t
    → (t.done ≡ true)
      × (steps_left s.place ≡ suc (steps_left t.place))
      × (t.entries + calls_left t.place ≡ s.entries + calls_left s.place)
unfolding ends
Step-progress d Step.call = (d, refl, omega arith)
Step-progress d (Step.return ret) = (d, refl, refl)
Step-progress d (Step.leave e) = (d, refl, refl)
Step-progress d (Step.repeat e) = absurd (ground arith)

Steps-progress :
    {n : ℕ} {s t : Body}
    → s.done ≡ true
    → Steps n s t
    → (t.done ≡ true)
      × (steps_left s.place ≡ n + steps_left t.place)
      × (t.entries + calls_left t.place ≡ s.entries + calls_left s.place)
Steps-progress d rest = (d, omega arith, refl)
Steps-progress d (step first others) =
    let (d', left, calls) = Step-progress d first in
    let (d'', left', calls') = Steps-progress d' others in (d'', omega arith, omega arith)

goes_on :
    (p : Place) (d : Bool) (n : ℕ)
    → (p ≡ Place.ended) ⊎ ((u : Body) × Step (record { place = p; done = d; entries = n }) u)
goes_on Place.before d n = inr (_, Step.call)
goes_on Place.inside d n = inr (_, Step.return (pos 0))
goes_on (Place.after ret) d n = elim (Bool-cases (ends d ret)) [
  | inl e ↦ inr (_, Step.leave e)
  | inr e ↦ inr (_, Step.repeat e)
]
goes_on Place.ended d n = inl refl

steps_left-bound : (p : Place) → (steps_left p ≤ 3) × (calls_left p ≤ 1)
steps_left-bound Place.before = (omega arith, omega arith)
steps_left-bound Place.inside = (omega arith, omega arith)
steps_left-bound (Place.after ret) = (omega arith, omega arith)
steps_left-bound Place.ended = (omega arith, omega arith)

-- Once a thread is told to stop, it takes at most three steps more, with at most one more call of
-- `entry`, and as long as `thread_body` has not ended there is a next step.
pub stop-ends :
    (n : ℕ) (s t : Body)
    → s.done ≡ true
    → Steps n s t
    → (n ≤ 3) × (t.entries ≤ s.entries + 1) × ((t.place ≡ Place.ended) ⊎ ((u : Body) × Step t u))
stop-ends n s t d steps =
    let (d', left, calls) = Steps-progress d steps in
    let (few, once) = steps_left-bound s.place in
    (omega arith, omega arith, goes_on t.place t.done t.entries)
