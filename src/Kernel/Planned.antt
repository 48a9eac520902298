-- ===== src/Kernel/Planned.antt =====
-- The waits of the two planner threads of kernel/src/main.c from balanced semaphores.
use ronaldinh_os_sistemas_op.Common.{
  ◌-◌, ◌<◌, ◌≡◌, ◌⊎◌, refl, ap, [], ◌∷◌, arith, ◌==◌, length, length-append, Bool-cases, List-cases,
  inl, inr,
}
use ronaldinh_os_sistemas_op.Kernel.State.{
  ready, Pcb, Planner, fifo, rr, vrr, Admission, waits_for_news, waits_for_place, waits_for_planner,
  Dispatch, waits_to_plan, waits_for_cpu, waits_for_readys, Kernel, Outcome, ends, waits, crashes,
}
use ronaldinh_os_sistemas_op.Kernel.Queues.{
  admit, dispatch_next, new_to_ready, process_to_execute, fifo_queue, execute_pcb,
}
use ronaldinh_os_sistemas_op.Kernel.Balanced.{Balanced, at_cpu, news_taken, place_taken, cpu_taken}

-- An outcome that is no crash and leaves balanced semaphores.
abbrev pub SafeOutcome : Outcome → Type 0
SafeOutcome (ends k) = Balanced k
SafeOutcome waits = Unit
SafeOutcome crashes = ⊥

pub Admission-cases :
    (a : Admission) → (a ≡ waits_for_news) ⊎ (a ≡ waits_for_place) ⊎ (a ≡ waits_for_planner)
Admission-cases waits_for_news = inl refl
Admission-cases waits_for_place = inr (inl refl)
Admission-cases waits_for_planner = inr (inr refl)

pub Dispatch-cases :
    (d : Dispatch) → (d ≡ waits_to_plan) ⊎ (d ≡ waits_for_cpu) ⊎ (d ≡ waits_for_readys)
Dispatch-cases waits_to_plan = inl refl
Dispatch-cases waits_for_cpu = inr (inl refl)
Dispatch-cases waits_for_readys = inr (inr refl)

admit-Safe :
    (k : Kernel)
    → Balanced k
    → k.admission ≡ waits_for_planner
    → SafeOutcome (admit (record k { admission = waits_for_news }))
unfolding admit
admit-Safe k b at =
    let held = ap news_taken at in
    let place = ap place_taken at in
    elim (List-cases k.queue_news) [
      | inl e ↦ absurd (omega (arith, b.news, held, ap length e))
      | inr (p, rest, e) ↦
          let n = ap length e in
          let pcb : Pcb = record p { state = ready } in
          let longer = length-append k.queue_readys (pcb ∷ []) in
          rw (admit, e)
            (record {
              news = omega (arith, b.news, held, n);
              readys = omega (arith, b.readys, longer);
              cpu = b.cpu;
              slots = omega (arith, b.slots, place, longer);
              priority = b.priority;
            })
    ]

pub new_to_ready-Safe : (k : Kernel) → Balanced k → SafeOutcome (new_to_ready k)
unfolding new_to_ready
new_to_ready-Safe k b = elim (Admission-cases k.admission) [
  | inl a ↦ elim (Bool-cases (k.news_avaiable == 0)) [
    | inl e ↦ rw (new_to_ready, a, e) tt
    | inr e ↦
        let some_news : 0 < k.news_avaiable = ground arith in
        rw (new_to_ready, a, e)
          (record {
            news = omega (arith, b.news, ap news_taken a);
            readys = b.readys;
            cpu = b.cpu;
            slots = omega (arith, b.slots, ap place_taken a);
            priority = b.priority;
          })
  ]
  | inr (inl a) ↦ elim (Bool-cases (k.readys_max == 0)) [
    | inl e ↦ rw (new_to_ready, a, e) tt
    | inr e ↦
        let some_places : 0 < k.readys_max = ground arith in
        rw (new_to_ready, a, e)
          (record {
            news = omega (arith, b.news, ap news_taken a);
            readys = b.readys;
            cpu = b.cpu;
            slots = omega (arith, b.slots, ap place_taken a);
            priority = b.priority;
          })
  ]
  | inr (inr a) ↦ elim (Bool-cases (k.can_plan == 0)) [
    | inl e ↦ rw (new_to_ready, a, e) tt
    | inr e ↦ rw (new_to_ready, a, e) (admit-Safe k b a)
  ]
]

taken : Kernel → Kernel
taken k = record k { readys_avaiable = k.readys_avaiable - 1; dispatch = waits_to_plan }

fifo_queue-Safe :
    (k : Kernel)
    → Balanced k
    → k.dispatch ≡ waits_for_readys
    → 0 < k.readys_avaiable
    → k.queue_aux ≡ []
    → SafeOutcome (fifo_queue (taken k))
unfolding fifo_queue execute_pcb taken
fifo_queue-Safe k b at some_ready no_aux = elim (List-cases k.queue_readys) [
  | inl e ↦ absurd (omega (arith, b.readys, ap length e, ap length no_aux))
  | inr (p, rest, e) ↦
      let n = ap length e in
      let idle : at_cpu k.running ≡ 0 = omega (arith, b.cpu, ap cpu_taken at) in
      rw (fifo_queue, e)
        (record {
          news = b.news;
          readys = omega (arith, b.readys, n);
          cpu = omega (arith, b.cpu, ap cpu_taken at);
          slots = omega (arith, b.slots, n, idle);
          priority = b.priority;
        })
]

pub Planner-cases : (p : Planner) → (p ≡ fifo) ⊎ (p ≡ rr) ⊎ (p ≡ vrr)
Planner-cases fifo = inl refl
Planner-cases rr = inr (inl refl)
Planner-cases vrr = inr (inr refl)

dispatch_next-Safe :
    (k : Kernel)
    → Balanced k
    → k.dispatch ≡ waits_for_readys
    → 0 < k.readys_avaiable
    → SafeOutcome (dispatch_next (taken k))
unfolding dispatch_next execute_pcb taken
dispatch_next-Safe k b at some_ready = elim (Planner-cases k.planner) [
  | inl e ↦ rw (dispatch_next, e) (fifo_queue-Safe k b at some_ready (b.priority (rw e refl)))
  | inr (inl e) ↦ rw (dispatch_next, e) (fifo_queue-Safe k b at some_ready (b.priority (rw e refl)))
  | inr (inr v) ↦ elim (List-cases k.queue_aux) [
    | inl e ↦ rw (dispatch_next, v, e) (fifo_queue-Safe k b at some_ready e)
    | inr (p, rest, e) ↦
        let n = ap length e in
        let idle : at_cpu k.running ≡ 0 = omega (arith, b.cpu, ap cpu_taken at) in
        rw (dispatch_next, v, e)
          (record {
            news = b.news;
            readys = omega (arith, b.readys, n);
            cpu = omega (arith, b.cpu, ap cpu_taken at);
            slots = omega (arith, b.slots, n, idle);
            priority = λ not_vrr. cc;
          })
  ]
]

pub process_to_execute-Safe : (k : Kernel) → Balanced k → SafeOutcome (process_to_execute k)
unfolding process_to_execute taken
process_to_execute-Safe k b = elim (Dispatch-cases k.dispatch) [
  | inl d ↦ elim (Bool-cases (k.can_plan == 0)) [
    | inl e ↦ rw (process_to_execute, d, e) tt
    | inr e ↦
        rw (process_to_execute, d, e)
          (record {
            news = b.news;
            readys = b.readys;
            cpu = omega (arith, b.cpu, ap cpu_taken d);
            slots = b.slots;
            priority = b.priority;
          })
  ]
  | inr (inl d) ↦ elim (Bool-cases (k.running_process == 0)) [
    | inl e ↦ rw (process_to_execute, d, e) tt
    | inr e ↦
        let free : 0 < k.running_process = ground arith in
        rw (process_to_execute, d, e)
          (record {
            news = b.news;
            readys = b.readys;
            cpu = omega (arith, b.cpu, ap cpu_taken d);
            slots = b.slots;
            priority = b.priority;
          })
  ]
  | inr (inr d) ↦ elim (Bool-cases (k.readys_avaiable == 0)) [
    | inl e ↦ rw (process_to_execute, d, e) tt
    | inr e ↦
        let some_ready : 0 < k.readys_avaiable = ground arith in
        rw (process_to_execute, d, e) (dispatch_next-Safe k b d some_ready)
  ]
]
