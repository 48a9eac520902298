-- ===== src/Kernel/Killed.antt =====
-- What the end of a process that stands in the queue of new ones does to the semaphores:
-- `finishProcess` of kernel/src/main.c.
use ronaldinh_os_sistemas_op.Common.{
  ℕ, ◌+◌, ◌≡◌, refl, ap, ◌∙◌, List, [], ◌∷◌, Bool, false, some, arith, ◌==◌, find, remove_first,
  length,
}
use ronaldinh_os_sistemas_op.Kernel.State.{
  Pcb, Kernel, Resource, ResourcesOfPid, waits_for_planner, crashes,
}
use ronaldinh_os_sistemas_op.Kernel.Queues.{unblocked, delete_pcb, release_pid, admit, new_to_ready}
use ronaldinh_os_sistemas_op.Kernel.Resources.{liberar_recursos}
use ronaldinh_os_sistemas_op.Kernel.Steps.{
  find_pcb_by_pid, remove_from_queues, is_running, finish_process,
}
use ronaldinh_os_sistemas_op.Kernel.Released.{Kept, liberar_recursos-Kept}
use ronaldinh_os_sistemas_op.Kernel.Balanced.{Balanced, news_taken, length-remove_first}

-- What admission reads is the same in the two states.
record SameNews (k k' : Kernel) : Type 0 where
  pub queue : k'.queue_news ≡ k.queue_news
  pub avaiable : k'.news_avaiable ≡ k.news_avaiable
  pub places : k'.readys_max ≡ k.readys_max
  pub plan : k'.can_plan ≡ k.can_plan
  pub admission : k'.admission ≡ k.admission

SameNews-refl : (k : Kernel) → SameNews k k
SameNews-refl k = record {
  queue = refl;
  avaiable = refl;
  places = refl;
  plan = refl;
  admission = refl;
}

SameNews-trans : {a b c : Kernel} → SameNews a b → SameNews b c → SameNews a c
SameNews-trans s t = record {
  queue = t.queue ∙ s.queue;
  avaiable = t.avaiable ∙ s.avaiable;
  places = t.places ∙ s.places;
  plan = t.plan ∙ s.plan;
  admission = t.admission ∙ s.admission;
}

SameNews-resources :
    (k : Kernel) (rs : List Resource) (us : List ResourcesOfPid)
    → SameNews k (record k { recursos = rs; resources_pcbs = us })
SameNews-resources k rs us = record {
  queue = refl;
  avaiable = refl;
  places = refl;
  plan = refl;
  admission = refl;
}

unblocked-SameNews : (test : Pcb → Bool) (p : Pcb) (k : Kernel) → SameNews k (unblocked test p k)
unfolding unblocked
unblocked-SameNews test p k = record {
  queue = ground arith;
  avaiable = ground arith;
  places = ground arith;
  plan = ground arith;
  admission = ground arith;
}

SameNews-Kept : (k : Kernel) → Kept (SameNews k)
SameNews-Kept k = record {
  resources = λ rs us k' s. SameNews-trans s (SameNews-resources k' rs us);
  unblocks = λ test p k' e s. SameNews-trans s (unblocked-SameNews test p k');
}

liberar_recursos-SameNews : (pid : ℕ) (k : Kernel) → SameNews k (liberar_recursos pid k)
liberar_recursos-SameNews pid k =
    liberar_recursos-Kept (SameNews k) (SameNews-Kept k) pid k (SameNews-refl k)

found_alone :
    (pid : ℕ) (p : Pcb) (ps : List Pcb)
    → ps ≡ p ∷ []
    → p.pid ≡ pid
    → (find (find_pcb_by_pid pid) ps ≡ some p) × (remove_first (find_pcb_by_pid pid) ps ≡ [])
unfolding find remove_first find_pcb_by_pid
found_alone pid p ps only its = (ground arith, ground arith)

-- Ending a process that waits in the queue of new ones, from balanced semaphores, takes the first of
-- its pid out of the queue, but leaves its count in the semaphore of that queue, or with the thread that
-- took it, and gives a place of the multiprogramming degree back that it never had.
pub finish_process-new :
    (pid : ℕ) (k : Kernel) (p : Pcb)
    → Balanced k
    → is_running pid k.running ≡ false
    → find (find_pcb_by_pid pid) k.queue_news ≡ some p
    → ((finish_process pid k).queue_news ≡ remove_first (find_pcb_by_pid pid) k.queue_news)
      × ((finish_process pid k).news_avaiable + news_taken (finish_process pid k).admission
          ≡ length (finish_process pid k).queue_news + 1)
      × ((finish_process pid k).readys_max ≡ k.readys_max + 1)
unfolding finish_process remove_from_queues delete_pcb release_pid
finish_process-new pid k p b idle there =
    let less = length-remove_first (find_pcb_by_pid pid) k.queue_news there in
    let s =
      liberar_recursos-SameNews pid (
        delete_pcb p (record k { queue_news = remove_first (find_pcb_by_pid pid) k.queue_news })) in
    (
      rw (finish_process, idle, remove_from_queues, there) s.queue,
      rw (finish_process, idle, remove_from_queues, there)
          (omega (arith, s.avaiable, ap news_taken s.admission, ap length s.queue, less, b.news)),
      rw (finish_process, idle, remove_from_queues, there) s.places,
    )

finish_process-SameNews :
    (pid : ℕ) (k : Kernel) (p : Pcb)
    → is_running pid k.running ≡ false
    → find (find_pcb_by_pid pid) k.queue_news ≡ some p
    → ((finish_process pid k).queue_news ≡ remove_first (find_pcb_by_pid pid) k.queue_news)
      × ((finish_process pid k).can_plan ≡ k.can_plan)
      × ((finish_process pid k).admission ≡ k.admission)
unfolding finish_process remove_from_queues delete_pcb release_pid
finish_process-SameNews pid k p idle there =
    let s =
      liberar_recursos-SameNews pid (
        delete_pcb p (record k { queue_news = remove_first (find_pcb_by_pid pid) k.queue_news })) in
    (
      rw (finish_process, idle, remove_from_queues, there) s.queue,
      rw (finish_process, idle, remove_from_queues, there) s.plan,
      rw (finish_process, idle, remove_from_queues, there) s.admission,
    )

admission-crash :
    (k : Kernel)
    → k.admission ≡ waits_for_planner
    → (k.can_plan == 0) ≡ false
    → k.queue_news ≡ []
    → new_to_ready k ≡ crashes
unfolding new_to_ready admit
admission-crash k at plan none_left = rw (new_to_ready, at, plan, admit, none_left) refl

-- If the process was the only new one, and the thread that admits it waits for a planner that runs, the
-- next admission crashes the kernel.
finish_process-crash :
    (pid : ℕ) (k : Kernel) (p : Pcb)
    → is_running pid k.running ≡ false
    → k.queue_news ≡ p ∷ []
    → p.pid ≡ pid
    → k.admission ≡ waits_for_planner
    → (k.can_plan == 0) ≡ false
    → new_to_ready (finish_process pid k) ≡ crashes
finish_process-crash pid k p idle only its at plan =
    let (there, gone) = found_alone pid p k.queue_news only its in
    let (queue, same_plan, stage) = finish_process-SameNews pid k p idle there in
    admission-crash (finish_process pid k) (stage ∙ at) (ap (λ n. n == 0) same_plan ∙ plan)
      (queue ∙ gone)
