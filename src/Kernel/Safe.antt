-- ===== src/Kernel/Safe.antt =====
-- No event crashes the kernel of kernel/src/main.c while its semaphores are balanced, and every event
-- keeps them so.
use ronaldinh_os_sistemas_op.Common.{
  ℕ, ◌-◌, ◌≤◌, refl, arith, ◌==◌, ltb, leb, ltb→lt, leb→le, Bool-cases, inl, inr,
}
use ronaldinh_os_sistemas_op.Kernel.State.{Kernel}
use ronaldinh_os_sistemas_op.Kernel.Steps.{stop_planner, run_planner, change_multiprogramming}
use ronaldinh_os_sistemas_op.Kernel.Events.{
  Event, creates, admits, dispatches, stops, runs, receives, waits_for, signals, io_ends, io_fails,
  grades, handle, Expected, Reaches, start, step,
}
use ronaldinh_os_sistemas_op.Kernel.Balanced.{
  Counted-Kept, Balanced, Balanced-planner, create_pcb-Balanced,
}
use ronaldinh_os_sistemas_op.Kernel.Released.{wait_resource-Kept, signal_resource-Kept}
use ronaldinh_os_sistemas_op.Kernel.Planned.{
  SafeOutcome, new_to_ready-Safe, process_to_execute-Safe,
}
use ronaldinh_os_sistemas_op.Kernel.Reported.{
  placed-Balanced, finished_io-Safe, finished_io_error-Safe,
}

stop_planner-Safe : (k : Kernel) → Balanced k → SafeOutcome (stop_planner k)
unfolding stop_planner
stop_planner-Safe k b = elim (Bool-cases k.planner_is_running) [
  | inl e₁ ↦ elim (Bool-cases (k.can_plan == 0)) [
    | inl e ↦ simp (e₁, e) tt
    | inr e ↦ simp (e₁, e) (Balanced-planner _ _ b)
  ]
  | inr e ↦ simp e b
]

run_planner-Balanced : (k : Kernel) → Balanced k → Balanced (run_planner k)
unfolding run_planner
run_planner-Balanced k b = elim (Bool-cases k.planner_is_running) [
  | inl e ↦ simp e b
  | inr e ↦ simp e (Balanced-planner _ _ b)
]

change_multiprogramming-Safe :
    (n : ℕ) (k : Kernel) → Balanced k → SafeOutcome (change_multiprogramming n k)
unfolding change_multiprogramming
change_multiprogramming-Safe n k b = elim (Bool-cases (n == 0)) [
  | inl e ↦ rw (change_multiprogramming, e) b
  | inr e₁ ↦ elim (Bool-cases (ltb k.grado n)) [
    | inl more ↦
        let m = ltb→lt k.grado n more in
        rw (change_multiprogramming, e₁, more)
          (record {
            news = b.news;
            readys = b.readys;
            cpu = b.cpu;
            slots = omega (arith, b.slots);
            priority = b.priority;
          })
    | inr less ↦ elim (Bool-cases (leb (k.grado - n) k.readys_max)) [
      | inl room ↦
          let m = leb→le (k.grado - n) k.readys_max room in
          let low : n ≤ k.grado = ground arith in
          rw (change_multiprogramming, e₁, less, room)
            (record {
              news = b.news;
              readys = b.readys;
              cpu = b.cpu;
              slots = omega (arith, b.slots);
              priority = b.priority;
            })
      | inr full ↦ rw (change_multiprogramming, e₁, less, full) tt
    ]
  ]
]

-- From balanced semaphores, an event that the other modules may cause does not crash the kernel,
-- and leaves the semaphores balanced where it ends: each queue semaphore counts its queues, the
-- CPU is free or has one process, and the free places and the admitted processes make up the
-- degree of multiprogramming, each with what the planner threads hold between two waits.
pub handle-Safe : (e : Event) (k : Kernel) → Balanced k → Expected e k → SafeOutcome (handle e k)
unfolding handle Expected
handle-Safe (creates path) k b ok = create_pcb-Balanced path b
handle-Safe admits k b ok = new_to_ready-Safe k b
handle-Safe dispatches k b ok = process_to_execute-Safe k b
handle-Safe stops k b ok = stop_planner-Safe k b
handle-Safe runs k b ok = run_planner-Balanced k b
handle-Safe (receives pcb) k b ok = placed-Balanced pcb pcb.reason k b ok.0.1 refl ok.1
handle-Safe (waits_for name pid) k b ok = wait_resource-Kept Balanced (Counted-Kept 0) name pid k b
handle-Safe (signals name pid) k b ok = signal_resource-Kept Balanced (Counted-Kept 0) name pid k b
handle-Safe (io_ends pid) k b ok = finished_io-Safe pid k b ok.1
handle-Safe (io_fails pid) k b ok = finished_io_error-Safe pid k b ok.1
handle-Safe (grades n) k b ok = change_multiprogramming-Safe n k b

-- In every state that such events reach from balanced semaphores, the semaphores are balanced.
pub Reaches-Balanced : (k k' : Kernel) → Balanced k → Reaches k k' → Balanced k'
Reaches-Balanced k k' b start = b
Reaches-Balanced k k' b (step {a = a} e r ok ended) =
    rw ended at (handle-Safe e a (Reaches-Balanced k a b r) ok)
