-- ===== src/Kernel/Reported.antt =====
-- What the CPU and the interfaces report to kernel/src/main.c, from balanced semaphores.
use ronaldinh_os_sistemas_op.Common.{
  ℕ, ◌+◌, ◌≡◌, ◌≢◌, refl, ap, [], ◌∷◌, ◌++◌, none, some, arith, ◌==◌, length-append, find,
  remove_first, Bool-cases, inl, inr,
}
use ronaldinh_os_sistemas_op.Kernel.State.{
  exit, quantum_end, io, wait, error, console, unknown, blocked, ready, Pcb, Reason, Kernel,
}
use ronaldinh_os_sistemas_op.Kernel.Queues.{release_pid, delete_pcb, block_pcb, desblock_pcb}
use ronaldinh_os_sistemas_op.Kernel.Steps.{
  find_pcb_by_pid, place_received, pcb_received, finished_io, finished_io_error,
}
use ronaldinh_os_sistemas_op.Kernel.Balanced.{
  Counted-Kept, Balanced, at_cpu, delete_pcb-Counted, Counted, unblocked-Balanced,
  length-remove_first,
}
use ronaldinh_os_sistemas_op.Kernel.Released.{liberar_recursos-Kept}
use ronaldinh_os_sistemas_op.Kernel.Planned.{SafeOutcome}

module _ (pcb : Pcb) (k : Kernel) {p : Pcb} (b : Balanced k) (there : k.running ≡ some p) where
  one_running : at_cpu k.running ≡ 1
  one_running = ap at_cpu there

  deleted-Balanced : Balanced (record (delete_pcb pcb (record k { running = none })) {
    running_process = k.running_process + 1;
  })
  unfolding delete_pcb release_pid
  deleted-Balanced = record {
    news = b.news;
    readys = b.readys;
    cpu = omega (arith, b.cpu, one_running);
    slots = omega (arith, b.slots, one_running);
    priority = b.priority;
  }

  blocked-Balanced : Balanced (record (block_pcb pcb (record k { running = none })) {
    running_process = k.running_process + 1;
  })
  unfolding block_pcb
  blocked-Balanced = record {
    news = b.news;
    readys = b.readys;
    cpu = omega (arith, b.cpu, one_running);
    slots = omega (
      arith,
      b.slots,
      one_running,
      length-append k.list_blockeds (record pcb { state = blocked } ∷ []),
    );
    priority = b.priority;
  }

  readied-Balanced : Balanced (record k {
    running = none;
    queue_readys = k.queue_readys ++ record pcb { state = ready } ∷ [];
    readys_avaiable = k.readys_avaiable + 1;
    running_process = k.running_process + 1;
  })
  readied-Balanced =
      let longer = length-append k.queue_readys (record pcb { state = ready } ∷ []) in
      record {
        news = b.news;
        readys = omega (arith, b.readys, longer);
        cpu = omega (arith, b.cpu, one_running);
        slots = omega (arith, b.slots, one_running, longer);
        priority = b.priority;
      }

pub placed-Balanced :
    (pcb : Pcb) (reason : Reason) (k : Kernel) {p : Pcb}
    → Balanced k
    → k.running ≡ some p
    → pcb.reason ≡ reason
    → reason ≢ unknown
    → Balanced (pcb_received pcb k)
unfolding pcb_received place_received block_pcb delete_pcb release_pid
placed-Balanced pcb exit k b there e known =
    rw (pcb_received, place_received, e) (deleted-Balanced pcb k b there)
placed-Balanced pcb error k b there e known =
    rw (pcb_received, place_received, e) (deleted-Balanced pcb k b there)
placed-Balanced pcb console k b there e known =
    rw (pcb_received, place_received, e) (deleted-Balanced pcb k b there)
placed-Balanced pcb io k b there e known =
    rw (pcb_received, place_received, e) (blocked-Balanced pcb k b there)
placed-Balanced pcb wait k b there e known =
    rw (pcb_received, place_received, e) (blocked-Balanced pcb k b there)
placed-Balanced pcb quantum_end k b there e known =
    rw (pcb_received, place_received, e) (readied-Balanced pcb k b there)
placed-Balanced pcb unknown k b there e known = absurd (known refl)

pub finished_io-Safe :
    (pid : ℕ) (k : Kernel) {p : Pcb}
    → Balanced k
    → find (find_pcb_by_pid pid) k.list_blockeds ≡ some p
    → SafeOutcome (finished_io pid k)
unfolding finished_io desblock_pcb
finished_io-Safe pid k {p} b e = elim (Bool-cases (k.can_plan == 0)) [
  | inl stopped ↦ rw (finished_io, stopped) tt
  | inr goes ↦
      rw (finished_io, goes, desblock_pcb, e) (unblocked-Balanced (find_pcb_by_pid pid) p e b)
]

pub finished_io_error-Safe :
    (pid : ℕ) (k : Kernel) {p : Pcb}
    → Balanced k
    → find (find_pcb_by_pid pid) k.list_blockeds ≡ some p
    → SafeOutcome (finished_io_error pid k)
unfolding finished_io_error
finished_io_error-Safe pid k {p} b e = elim (Bool-cases (k.can_plan == 0)) [
  | inl stopped ↦ rw (finished_io_error, stopped) tt
  | inr goes ↦
      let removed : Kernel = record k {
        list_blockeds = remove_first (find_pcb_by_pid pid) k.list_blockeds;
      } in
      let one_less : Counted 1 removed = record {
        news = b.news;
        readys = b.readys;
        cpu = b.cpu;
        slots = omega (arith, b.slots, length-remove_first (find_pcb_by_pid pid) k.list_blockeds e);
        priority = b.priority;
      } in
      rw (finished_io_error, goes, e)
        (delete_pcb-Counted p
          (liberar_recursos-Kept (Counted 1) (Counted-Kept 1) pid removed one_less))
]
