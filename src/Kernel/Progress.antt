-- ===== src/Kernel/Progress.antt =====
-- The dispatch thread of kernel/src/main.c comes to its end: `runnerProcessToExecute`, wait after wait.
use ronaldinh_os_sistemas_op.Common.{
  ℕ, zero, suc, ◌+◌, ◌-◌, ◌<◌, ◌≤◌, ◌≡◌, refl, ap, [], ◌∷◌, false, none, List, some, not-==, arith,
  ◌==◌, length, List-cases, inl, inr,
}
use ronaldinh_os_sistemas_op.Kernel.State.{
  Pcb, exec, Kernel, vrr, Outcome, ends, waits, crashes, waits_to_plan, waits_for_cpu,
  waits_for_readys,
}
use ronaldinh_os_sistemas_op.Kernel.Queues.{
  is_vrr, process_to_execute, dispatch_next, fifo_queue, execute_pcb,
}
use ronaldinh_os_sistemas_op.Kernel.Balanced.{Balanced, at_cpu, cpu_taken}
use ronaldinh_os_sistemas_op.Kernel.Planned.{Planner-cases, Dispatch-cases}

-- So many waits of the thread, one after the other; a wait that does not end stops it.
unfoldable pub dispatch_waits : ℕ → Kernel → Outcome
unfolding process_to_execute
dispatch_waits zero k = ends k
dispatch_waits (suc n) k = elim (process_to_execute k) [
  | ends k' ↦ dispatch_waits n k'
  | waits ↦ waits
  | crashes ↦ crashes
]

-- A process is at the CPU, in the state EXEC, at the end of some of the waits.
abbrev Dispatched : ℕ → Kernel → Type 0
Dispatched n k =
    (k' : Kernel) × (dispatch_waits n k ≡ ends k')
    × (p : Pcb) × (k'.running ≡ some (record p { state = exec }))

one_wait :
    (n : ℕ) (k k' : Kernel)
    → process_to_execute k ≡ ends k'
    → Dispatched n k'
    → Dispatched (suc n) k
unfolding dispatch_waits
one_wait n k k' e (last, run, p, at) = (last, rw (dispatch_waits, e) run, p, at)

fifo_queue-runs :
    (k : Kernel)
    → 0 < length k.queue_readys
    → (k' : Kernel) × (fifo_queue k ≡ ends k')
      × (p : Pcb) × (k'.running ≡ some (record p { state = exec }))
unfolding fifo_queue execute_pcb
fifo_queue-runs k some_ready = elim (List-cases k.queue_readys) [
  | inl e ↦ absurd (omega (arith, ap length e))
  | inr (p, rest, e) ↦
      (execute_pcb p (record k { queue_readys = rest }), rw (fifo_queue, e) refl, p, refl)
]

dispatch_next-aux :
    (k : Kernel) (p : Pcb) (rest : List Pcb) (o : Outcome)
    → k.planner ≡ vrr
    → k.queue_aux ≡ p ∷ rest
    → ends (execute_pcb p (record k { queue_aux = rest })) ≡ o
    → dispatch_next k ≡ o
unfolding dispatch_next
dispatch_next-aux k p rest o v e h = rw (dispatch_next, v, e) h

-- The dispatch finds a process in a queue, whatever the planner is.
dispatch_next-runs :
    (k : Kernel)
    → 0 < length k.queue_readys + length k.queue_aux
    → (is_vrr k.planner ≡ false → k.queue_aux ≡ [])
    → (k' : Kernel) × (dispatch_next k ≡ ends k')
      × (p : Pcb) × (k'.running ≡ some (record p { state = exec }))
unfolding dispatch_next execute_pcb
dispatch_next-runs k some_ready priority = elim (Planner-cases k.planner) [
  | inl e ↦
      let no_aux = ap length (priority (rw e refl)) in
      rw (dispatch_next, e) (fifo_queue-runs k (omega (arith, no_aux)))
  | inr (inl e) ↦
      let no_aux = ap length (priority (rw e refl)) in
      rw (dispatch_next, e) (fifo_queue-runs k (omega (arith, no_aux)))
  | inr (inr v) ↦ elim (List-cases k.queue_aux) [
    | inl e ↦ rw (dispatch_next, v, e) (fifo_queue-runs k (omega (arith, ap length e)))
    | inr (p, rest, e) ↦ (
      execute_pcb p (record k { queue_aux = rest }),
      dispatch_next-aux k p rest _ v e refl,
      p,
      refl,
    )
  ]
]

-- The waits that are left, from the last one back.
third_wait :
    (k : Kernel)
    → k.dispatch ≡ waits_for_readys
    → (k.readys_avaiable == 0) ≡ false
    → 0 < length k.queue_readys + length k.queue_aux
    → (is_vrr k.planner ≡ false → k.queue_aux ≡ [])
    → Dispatched 1 k
unfolding dispatch_waits process_to_execute
third_wait k at counted some_ready priority =
    let (last, run, p, there) =
      dispatch_next-runs
        (record k { readys_avaiable = k.readys_avaiable - 1; dispatch = waits_to_plan }) some_ready
        priority in
    let ends_there : process_to_execute k ≡ ends last = rw (process_to_execute, at, counted) run in
    one_wait 0 k last ends_there (last, refl, p, there)

second_wait :
    (k : Kernel)
    → k.dispatch ≡ waits_for_cpu
    → (k.running_process == 0) ≡ false
    → (k.readys_avaiable == 0) ≡ false
    → 0 < length k.queue_readys + length k.queue_aux
    → (is_vrr k.planner ≡ false → k.queue_aux ≡ [])
    → Dispatched 2 k
unfolding process_to_execute
second_wait k at free counted some_ready priority =
    let next : Kernel = record k {
      running_process = k.running_process - 1;
      dispatch = waits_for_readys;
    } in
    one_wait 1 k next (rw (process_to_execute, at, free) refl)
      (third_wait next refl counted some_ready priority)

first_wait :
    (k : Kernel)
    → k.dispatch ≡ waits_to_plan
    → (k.can_plan == 0) ≡ false
    → (k.running_process == 0) ≡ false
    → (k.readys_avaiable == 0) ≡ false
    → 0 < length k.queue_readys + length k.queue_aux
    → (is_vrr k.planner ≡ false → k.queue_aux ≡ [])
    → Dispatched 3 k
unfolding process_to_execute
first_wait k at plan free counted some_ready priority =
    let next : Kernel = record k { dispatch = waits_for_cpu } in
    one_wait 2 k next (rw (process_to_execute, at, plan) refl)
      (second_wait next refl free counted some_ready priority)

-- From balanced semaphores, with nobody at the CPU, the planner running and a process in a queue of ready
-- ones, the dispatch thread puts a process at the CPU after at most three waits, wherever it stands among
-- them, and every one of these waits ends.
pub process_to_execute-progress :
    (k : Kernel)
    → Balanced k
    → k.running ≡ none
    → 0 < k.can_plan
    → 0 < length k.queue_readys + length k.queue_aux
    → (n : ℕ) × (n ≤ 3)
      × (k' : Kernel) × (dispatch_waits n k ≡ ends k')
      × (p : Pcb) × (k'.running ≡ some (record p { state = exec }))
process_to_execute-progress k b idle plan some_ready =
    let nobody_there = ap at_cpu idle in
    let counted : (k.readys_avaiable == 0) ≡ false =
      not-== k.readys_avaiable 0 (inr (omega (arith, b.readys))) in
    let planned : (k.can_plan == 0) ≡ false = not-== k.can_plan 0 (inr plan) in
    let free : cpu_taken k.dispatch ≡ 0 → (k.running_process == 0) ≡ false =
      λ e. not-== k.running_process 0 (inr (omega (arith, b.cpu, nobody_there))) in
    elim (Dispatch-cases k.dispatch) [
      | inl d ↦
          let (last, run, p, there) =
            first_wait k d planned (free (ap cpu_taken d)) counted some_ready b.priority in
          (3, omega arith, last, run, p, there)
      | inr (inl d) ↦
          let (last, run, p, there) =
            second_wait k d (free (ap cpu_taken d)) counted some_ready b.priority in
          (2, omega arith, last, run, p, there)
      | inr (inr d) ↦
          let (last, run, p, there) = third_wait k d counted some_ready b.priority in
          (1, omega arith, last, run, p, there)
    ]
