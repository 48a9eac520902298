-- ===== src/Kernel/Whereabouts.antt =====
-- The waits of the planner threads of kernel/src/main.c leave each pid in one place.
use ronaldinh_os_sistemas_op.Common.{
  ℕ, ◌≡◌, refl, ap, Option, none, some, arith, ◌==◌, count, Bool-cases, List-cases, inl, inr,
}
use ronaldinh_os_sistemas_op.Kernel.State.{
  waits_for_news, waits_to_plan, ready, Pcb, Kernel, Outcome, ends, waits, crashes,
}
use ronaldinh_os_sistemas_op.Kernel.Queues.{
  admit, dispatch_next, new_to_ready, process_to_execute, fifo_queue, execute_pcb,
}
use ronaldinh_os_sistemas_op.Kernel.Balanced.{Balanced, at_cpu, cpu_taken}
use ronaldinh_os_sistemas_op.Kernel.Planned.{Planner-cases, Admission-cases, Dispatch-cases}
use ronaldinh_os_sistemas_op.Kernel.Pids.{pids, at_cpu_pid, Held, nobody, count-pids-last}

-- Where an outcome is a state, each pid has one place in it.
abbrev pub HeldOutcome : Outcome → Type 0
HeldOutcome (ends k) = Held nobody k
HeldOutcome waits = Unit
HeldOutcome crashes = Unit

admit-Held :
    (k : Kernel) → Held nobody k → HeldOutcome (admit (record k { admission = waits_for_news }))
unfolding admit count
admit-Held k h = elim (List-cases k.queue_news) [
  | inl e ↦ rw (admit, e) tt
  | inr (p, rest, e) ↦
      let pcb : Pcb = record p { state = ready } in
      rw (admit, e)
        (record {
          once = λ q. omega (
            arith,
            h.once q,
            ap (λ ps. count q (pids ps)) e,
            count-pids-last q k.queue_readys pcb,
          );
        })
]

pub new_to_ready-Held : (k : Kernel) → Held nobody k → HeldOutcome (new_to_ready k)
unfolding new_to_ready
new_to_ready-Held k h = elim (Admission-cases k.admission) [
  | inl a ↦ elim (Bool-cases (k.news_avaiable == 0)) [
    | inl e ↦ rw (new_to_ready, a, e) tt
    | inr e ↦ rw (new_to_ready, a, e) (record { once = h.once })
  ]
  | inr (inl a) ↦ elim (Bool-cases (k.readys_max == 0)) [
    | inl e ↦ rw (new_to_ready, a, e) tt
    | inr e ↦ rw (new_to_ready, a, e) (record { once = h.once })
  ]
  | inr (inr a) ↦ elim (Bool-cases (k.can_plan == 0)) [
    | inl e ↦ rw (new_to_ready, a, e) tt
    | inr e ↦ rw (new_to_ready, a, e) (admit-Held k h)
  ]
]

idle_pid : (o : Option Pcb) (q : ℕ) → at_cpu o ≡ 0 → at_cpu_pid o q ≡ 0
idle_pid none q e = refl
idle_pid (some p) q e = absurd (omega arith)

abbrev taken : ℕ → Kernel → Kernel
taken avaiable k = record k { readys_avaiable = avaiable; dispatch = waits_to_plan }

fifo_queue-Held :
    (k : Kernel) (avaiable : ℕ)
    → Held nobody k
    → at_cpu k.running ≡ 0
    → HeldOutcome (fifo_queue (taken avaiable k))
unfolding fifo_queue execute_pcb count
fifo_queue-Held k avaiable h idle = elim (List-cases k.queue_readys) [
  | inl e ↦ rw (fifo_queue, e) tt
  | inr (p, rest, e) ↦
      rw (fifo_queue, e)
        (record {
          once = λ q.
              omega (arith, h.once q, ap (λ ps. count q (pids ps)) e, idle_pid k.running q idle);
        })
]

dispatch_next-Held :
    (k : Kernel) (avaiable : ℕ)
    → Held nobody k
    → at_cpu k.running ≡ 0
    → HeldOutcome (dispatch_next (taken avaiable k))
unfolding dispatch_next execute_pcb count
dispatch_next-Held k avaiable h idle = elim (Planner-cases k.planner) [
  | inl e ↦ rw (dispatch_next, e) (fifo_queue-Held k _ h idle)
  | inr (inl e) ↦ rw (dispatch_next, e) (fifo_queue-Held k _ h idle)
  | inr (inr v) ↦ elim (List-cases k.queue_aux) [
    | inl e ↦ rw (dispatch_next, v, e) (fifo_queue-Held k _ h idle)
    | inr (p, rest, e) ↦
        rw (dispatch_next, v, e)
          (record {
            once = λ q.
                omega (arith, h.once q, ap (λ ps. count q (pids ps)) e, idle_pid k.running q idle);
          })
  ]
]

pub process_to_execute-Held :
    (k : Kernel) → Balanced k → Held nobody k → HeldOutcome (process_to_execute k)
unfolding process_to_execute
process_to_execute-Held k b h = elim (Dispatch-cases k.dispatch) [
  | inl d ↦ elim (Bool-cases (k.can_plan == 0)) [
    | inl e ↦ rw (process_to_execute, d, e) tt
    | inr e ↦ rw (process_to_execute, d, e) (record { once = h.once })
  ]
  | inr (inl d) ↦ elim (Bool-cases (k.running_process == 0)) [
    | inl e ↦ rw (process_to_execute, d, e) tt
    | inr e ↦ rw (process_to_execute, d, e) (record { once = h.once })
  ]
  | inr (inr d) ↦ elim (Bool-cases (k.readys_avaiable == 0)) [
    | inl e ↦ rw (process_to_execute, d, e) tt
    | inr e ↦
        let idle : at_cpu k.running ≡ 0 = omega (arith, b.cpu, ap cpu_taken d) in
        rw (process_to_execute, d, e) (dispatch_next-Held k _ h idle)
  ]
]
