-- ===== src/Kernel/Task/Fair.antt =====
-- Round robin: a task that can run comes to run.
use mathlib.Core.Path.{subst}
use native.Mathlib.Decide.{dec_lt, ℕ_discrete}
use native.Mathlib.Nat.{mod-add-mod}
use polaros.Prelude.{
  ℕ, zero, suc, ◌-◌, ◌%◌, ◌≤◌, ◌<◌, ◌≡◌, ◌≢◌, refl, ap, ◌∙◌, Bool, true, false, Option, some, List,
  arith, length, length-set, get_elem?, set, get_elem?-set_self, get_elem?-set_ne, lt_of_get_elem?,
}
use polaros.Ring.{round_cases}
use polaros.Kernel.Task.{
  Task, Scheduler, Outcome, returns, panics, out_of_fuel, runnable, leave, enter, find_and_switch,
  schedule_yield,
}
use polaros.Kernel.Task.Search.{runnable_at}
use polaros.Kernel.Task.Switch.{Switched, stays, goes, behind, find_and_switch-Switched}
use polaros.Kernel.Task.Invariant.{IsValid, schedule_yield-Keeps}

-- So many cooperative yields, one after another.
unfoldable pub yields : ℕ → Scheduler → Outcome Scheduler
yields zero s = returns s
yields (suc k) s = elim (schedule_yield s) [
  | panics ↦ panics
  | out_of_fuel ↦ out_of_fuel
  | returns (r, s') ↦ yields k s'
]

-- A task that is replaced by one that can run.
runnable-set :
    (ts : List Task) (i : ℕ) (t v : Task) (j : ℕ)
    → get_elem? ts i ≡ some t
    → (runnable t.state ≡ true → runnable v.state ≡ true)
    → runnable_at ts j ≡ true
    → runnable_at (set ts i v) j ≡ true
runnable-set ts i t v j at keep can = elim (ℕ_discrete i j) [
  | yes e ↦
      let at_j : get_elem? ts j ≡ some t = rw e at at in
      let here : get_elem? (set ts i v) j ≡ some v =
        rw (← e) (get_elem?-set_self ts i v (lt_of_get_elem? ts i t at)) in
      let old : runnable t.state ≡ true = ground arith in let now = keep old in ground arith
  | no ne ↦ let away = get_elem?-set_ne ts i j v ne in ground arith
]

module _ (s : Scheduler) (v : IsValid s) where
  within : s.current < length s.tasks
  within = lt_of_get_elem? s.tasks s.current v.sound.task v.sound.at_current

  yield_switches : 1 < length s.tasks → schedule_yield s ≡ find_and_switch s
  unfolding schedule_yield
  yield_switches h = ground arith

  -- The next yield goes to the task `d` places behind, or comes nearer to it.
  record Nearer (d : ℕ) : Type 0 where
    s' : Scheduler
    m : ℕ
    r : Option (ℕ × ℕ)
    pos : 0 < m
    small : m ≤ d
    step : schedule_yield s ≡ returns (r, s')
    valid : IsValid s'
    room : length s'.tasks ≡ length s.tasks
    place : behind s' (d - m) ≡ behind s d
    can : runnable_at s'.tasks (behind s d) ≡ true

  contradiction : {b : Bool} → b ≡ false → b ≡ true → ⊥
  contradiction p q = cc

  reached :
      (m d : ℕ)
      → ((j : ℕ) → 0 < j → j < m → runnable_at s.tasks (behind s j) ≡ false)
      → 0 < d
      → runnable_at s.tasks (behind s d) ≡ true
      → m ≤ d
  reached m d before pos can = elim (dec_lt d m) [
    | yes lt ↦ absurd (contradiction (before d pos lt) can)
    | no ge ↦ omega arith
  ]

  leave-runnable : (t : Task) → runnable t.state ≡ true → runnable (leave t).state ≡ true
  leave-runnable t h = ground arith

  nearer :
      (d : ℕ)
      → 0 < d
      → d < length s.tasks
      → runnable_at s.tasks (behind s d) ≡ true
      → Switched s (find_and_switch s)
      → Nearer d
  nearer d pos lt can (stays old at_old idle q) = absurd (contradiction (idle d pos lt) can)
  nearer d pos lt can (goes old next m at_old pos_m small at_next can_m before q) =
      let (r, s', e, v') = schedule_yield-Keeps s v in
      let s1 = record s {
        tasks = set (set s.tasks s.current (leave old)) (behind s m) (enter next);
        current = behind s m;
      } in
      let left = set s.tasks s.current (leave old) in
      let room =
        length-set left (behind s m) (enter next) ∙ length-set s.tasks s.current (leave old) in
      let near : m ≤ d = reached m d before pos can in
      let away : s.current ≢ behind s m =
        omega (arith, round_cases (length s.tasks) s.current m within (omega arith)) in
      let at_next' = get_elem?-set_ne s.tasks s.current (behind s m) (leave old) away ∙ at_next in
      let still =
        runnable-set s.tasks s.current old (leave old) (behind s d) at_old (leave-runnable old)
          can in
      let e1 = yield_switches (omega arith) ∙ q in
      let same : s' ≡ s1 = cc in
      record {
        s' = s1;
        m = m;
        r = some (s.current, behind s m);
        pos = pos_m;
        small = near;
        step = e1;
        valid = subst IsValid same v';
        room = room;
        place = rw room (rw mod-add-mod (ap (λ k. k % length s.tasks) (omega arith)));
        can =
            runnable-set left (behind s m) next (enter next) (behind s d) at_next' (λ p. refl)
              still;
      }

yields-suc :
    (d : ℕ) (s : Scheduler) (v : IsValid s) (n : Nearer s v d) (k : ℕ) (s2 : Scheduler)
    → yields k n.s' ≡ returns s2
    → yields (suc k) s ≡ returns s2
unfolding yields
yields-suc d s v n k s2 e = cc (n.step, e)

yields_reach :
    (bound d : ℕ) (s : Scheduler)
    → IsValid s
    → d ≤ bound
    → d < length s.tasks
    → runnable_at s.tasks (behind s d) ≡ true
    → (k : ℕ) × (s' : Scheduler) × (k ≤ d)
      × (yields k s ≡ returns s')
      × IsValid s'
      × (s'.current ≡ behind s d)
yields_reach bound zero s v h lt can = (
  0,
  s,
  omega arith,
  unfold yields in refl,
  v,
  omega (arith, within s v, round_cases (length s.tasks) s.current 0 (within s v) (omega arith)),
)
yields_reach zero (suc d) s v h lt can = absurd (omega arith)
yields_reach (suc bound) (suc d) s v h lt can =
    let n = nearer s v (suc d) (omega arith) lt can (find_and_switch-Switched s (within s v)) in
    let (k, s2, le, e, v2, at) =
      yields_reach bound (suc d - n.m) n.s' n.valid (omega (arith, n.pos))
        (omega (arith, n.room, n.pos)) (rw n.place n.can) in
    (suc k, s2, omega (arith, n.pos, n.small), yields-suc (suc d) s v n k s2 e, v2, at ∙ n.place)

-- In a valid scheduler, a task that can run and stands d places behind the current one is the
-- current one after at most d cooperative yields; none of them panics, and the invariant holds.
pub yields_fair :
    (s : Scheduler) (d : ℕ)
    → IsValid s
    → d < length s.tasks
    → runnable_at s.tasks (behind s d) ≡ true
    → (k : ℕ) × (s' : Scheduler) × (k ≤ d)
      × (yields k s ≡ returns s')
      × IsValid s'
      × (s'.current ≡ behind s d)
yields_fair s d v lt can = yields_reach d d s v (omega arith) lt can
