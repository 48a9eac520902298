-- ===== src/Kernel/OnePlace.antt =====
-- Every event of kernel/src/main.c, and the end of a process, leaves each pid in one place.
use ronaldinh_os_sistemas_op.Common.{
  ℕ, ◌-◌, ◌≡◌, ◌≢◌, refl, sym, ap, ◌∙◌, [], ◌∷◌, ◌++◌, none, some, arith, ◌==◌, ltb, leb, find,
  remove_first, Bool-cases, Option-cases, inl, inr,
}
use ronaldinh_os_sistemas_op.Kernel.State.{
  ready, blocked, Pcb, Reason, exit, quantum_end, io, wait, error, console, unknown, Kernel,
}
use ronaldinh_os_sistemas_op.Kernel.Queues.{delete_pcb, block_pcb, desblock_pcb}
use ronaldinh_os_sistemas_op.Kernel.Steps.{
  find_pcb_by_pid, place_received, pcb_received, finished_io, finished_io_error, stop_planner,
  run_planner, change_multiprogramming,
}
use ronaldinh_os_sistemas_op.Kernel.Events.{
  Event, creates, admits, dispatches, stops, runs, receives, waits_for, signals, io_ends, io_fails,
  grades, handle, Expected, Reaches, start, step,
}
use ronaldinh_os_sistemas_op.Kernel.Released.{
  wait_resource-Kept, signal_resource-Kept, liberar_recursos-Kept,
}
use ronaldinh_os_sistemas_op.Kernel.Balanced.{Balanced}
use ronaldinh_os_sistemas_op.Kernel.Safe.{Reaches-Balanced}
use ronaldinh_os_sistemas_op.Kernel.Resources.{liberar_recursos}
use ronaldinh_os_sistemas_op.Kernel.Pids.{
  one, at_cpu_pid, Held, nobody, count-pids-last, count-pids-remove, Held-Kept, delete_pcb-Held,
  create_pcb-Held,
}
use ronaldinh_os_sistemas_op.Kernel.Whereabouts.{
  HeldOutcome, new_to_ready-Held, process_to_execute-Held,
}

module _ (pcb : Pcb) (k : Kernel) {p : Pcb} (h : Held nobody k) (there : k.running ≡ some p)
    (same : pcb.pid ≡ p.pid) where
  its_place : (q : ℕ) → at_cpu_pid k.running q ≡ one pcb.pid q
  its_place q = ap (λ o. at_cpu_pid o q) there ∙ ap (λ x. one x q) (sym same)

  back-Held : Held (one pcb.pid) (record k { running = none })
  back-Held = record { once = λ q. omega (arith, h.once q, its_place q) }

  deleted-Held :
      (n : ℕ)
      → Held nobody (record (delete_pcb pcb (record k { running = none })) { running_process = n })
  deleted-Held n =
      let d = delete_pcb-Held pcb (record k { running = none }) back-Held in
      record { once = d.once }

  blocked-Held :
      (n : ℕ)
      → Held nobody (record (block_pcb pcb (record k { running = none })) { running_process = n })
  unfolding block_pcb
  blocked-Held n = record {
    once = λ q. omega (
      arith,
      back-Held.once q,
      count-pids-last q k.list_blockeds (record pcb { state = blocked }),
    );
  }

  readied-Held :
      (n r : ℕ)
      → Held nobody (record k {
        running = none;
        queue_readys = k.queue_readys ++ record pcb { state = ready } ∷ [];
        readys_avaiable = r;
        running_process = n;
      })
  readied-Held n r = record {
    once = λ q.
        omega (
          arith,
          back-Held.once q,
          count-pids-last q k.queue_readys (record pcb { state = ready }),
        );
  }

pcb_received-Held :
    (pcb : Pcb) (reason : Reason) (k : Kernel) {p : Pcb}
    → Held nobody k
    → k.running ≡ some p
    → pcb.pid ≡ p.pid
    → pcb.reason ≡ reason
    → reason ≢ unknown
    → Held nobody (pcb_received pcb k)
unfolding pcb_received place_received
pcb_received-Held pcb exit k h there same e known =
    rw (pcb_received, place_received, e) (deleted-Held pcb k h there same _)
pcb_received-Held pcb error k h there same e known =
    rw (pcb_received, place_received, e) (deleted-Held pcb k h there same _)
pcb_received-Held pcb console k h there same e known =
    rw (pcb_received, place_received, e) (deleted-Held pcb k h there same _)
pcb_received-Held pcb io k h there same e known =
    rw (pcb_received, place_received, e) (blocked-Held pcb k h there same _)
pcb_received-Held pcb wait k h there same e known =
    rw (pcb_received, place_received, e) (blocked-Held pcb k h there same _)
pcb_received-Held pcb quantum_end k h there same e known =
    rw (pcb_received, place_received, e) (readied-Held pcb k h there same _ _)
pcb_received-Held pcb unknown k h there same e known = absurd (known refl)

finished_io-Held : (pid : ℕ) (k : Kernel) → Held nobody k → HeldOutcome (finished_io pid k)
unfolding finished_io desblock_pcb
finished_io-Held pid k h = elim (Bool-cases (k.can_plan == 0)) [
  | inl stopped ↦ rw (finished_io, stopped) tt
  | inr goes ↦ elim (Option-cases (find (find_pcb_by_pid pid) k.list_blockeds)) [
    | inl e ↦ rw (finished_io, goes, desblock_pcb, e) tt
    | inr (p, e) ↦
        let law = Held-Kept nobody in
        rw (finished_io, goes, desblock_pcb, e) (law.unblocks (find_pcb_by_pid pid) p k e h)
  ]
]

finished_io_error-Held :
    (pid : ℕ) (k : Kernel) → Held nobody k → HeldOutcome (finished_io_error pid k)
unfolding finished_io_error
finished_io_error-Held pid k h = elim (Bool-cases (k.can_plan == 0)) [
  | inl stopped ↦ rw (finished_io_error, stopped) tt
  | inr goes ↦ elim (Option-cases (find (find_pcb_by_pid pid) k.list_blockeds)) [
    | inl e ↦ rw (finished_io_error, goes, e) tt
    | inr (p, e) ↦
        let removed : Kernel = record k {
          list_blockeds = remove_first (find_pcb_by_pid pid) k.list_blockeds;
        } in
        let away : Held (one p.pid) removed = record {
          once = λ q.
              omega (arith, h.once q, count-pids-remove q (find_pcb_by_pid pid) k.list_blockeds e);
        } in
        rw (finished_io_error, goes, e)
          (delete_pcb-Held p (liberar_recursos pid removed)
            (liberar_recursos-Kept (Held (one p.pid)) (Held-Kept (one p.pid)) pid removed away))
  ]
]

pub stop_planner-Held : (k : Kernel) → Held nobody k → HeldOutcome (stop_planner k)
unfolding stop_planner
stop_planner-Held k h = elim (Bool-cases k.planner_is_running) [
  | inl e₁ ↦ elim (Bool-cases (k.can_plan == 0)) [
    | inl e ↦ simp (e₁, e) tt
    | inr e ↦ simp (e₁, e) (record { once = h.once })
  ]
  | inr e ↦ simp e h
]

pub run_planner-Held : (k : Kernel) → Held nobody k → Held nobody (run_planner k)
unfolding run_planner
run_planner-Held k h = elim (Bool-cases k.planner_is_running) [
  | inl e ↦ simp e h
  | inr e ↦ simp e (record { once = h.once })
]

pub change_multiprogramming-Held :
    (n : ℕ) (k : Kernel) → Held nobody k → HeldOutcome (change_multiprogramming n k)
unfolding change_multiprogramming
change_multiprogramming-Held n k h = elim (Bool-cases (n == 0)) [
  | inl e ↦ rw (change_multiprogramming, e) h
  | inr e₁ ↦ elim (Bool-cases (ltb k.grado n)) [
    | inl more ↦ rw (change_multiprogramming, e₁, more) (record { once = h.once })
    | inr less ↦ elim (Bool-cases (leb (k.grado - n) k.readys_max)) [
      | inl room ↦ rw (change_multiprogramming, e₁, less, room) (record { once = h.once })
      | inr full ↦ rw (change_multiprogramming, e₁, less, full) tt
    ]
  ]
]

handle-Held :
    (e : Event) (k : Kernel) → Balanced k → Held nobody k → Expected e k → HeldOutcome (handle e k)
unfolding handle Expected
handle-Held (creates path) k b h ok = create_pcb-Held path k h
handle-Held admits k b h ok = new_to_ready-Held k h
handle-Held dispatches k b h ok = process_to_execute-Held k b h
handle-Held stops k b h ok = stop_planner-Held k h
handle-Held runs k b h ok = run_planner-Held k h
handle-Held (receives pcb) k b h ok = pcb_received-Held pcb pcb.reason k h ok.0.1 ok.0.2 refl ok.1
handle-Held (waits_for name pid) k b h ok =
    wait_resource-Kept (Held nobody) (Held-Kept nobody) name pid k h
handle-Held (signals name pid) k b h ok =
    signal_resource-Kept (Held nobody) (Held-Kept nobody) name pid k h
handle-Held (io_ends pid) k b h ok = finished_io-Held pid k h
handle-Held (io_fails pid) k b h ok = finished_io_error-Held pid k h
handle-Held (grades n) k b h ok = change_multiprogramming-Held n k h

-- In every state that expected events reach from balanced semaphores with each pid in one place, each
-- pid below the next one is held once, by a process in one queue, at the CPU or blocked, or by the
-- list of free pids, and no other pid is held.
pub Reaches-Held : (k k' : Kernel) → Balanced k → Held nobody k → Reaches k k' → Held nobody k'
Reaches-Held k k' b h start = h
Reaches-Held k k' b h (step {a = a} e r ok ended) =
    rw ended at (handle-Held e a (Reaches-Balanced k a b r) (Reaches-Held k a b h r) ok)
