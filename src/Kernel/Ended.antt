-- ===== src/Kernel/Ended.antt =====
-- The end of a process by the console, `finishProcess` of kernel/src/main.c: its pid becomes free.
use ronaldinh_os_sistemas_op.Common.{
  ℕ, ◌+◌, ◌<◌, ◌≤◌, ◌≡◌, ◌⊎◌, ◌==◌, refl, sym, ap, ◌∙◌, List, [], ◌∷◌, ◌++◌, Bool, true, false,
  some-injective, count, Option, none, some, arith, find, Bool-cases, Option-cases, inl, inr,
}
use ronaldinh_os_sistemas_op.Kernel.State.{Pcb, Kernel}
use ronaldinh_os_sistemas_op.Kernel.Queues.{delete_pcb, release_pid, unblocked}
use ronaldinh_os_sistemas_op.Kernel.Steps.{
  find_pcb_by_pid, remove_from_queues, is_running, finish_process,
}
use ronaldinh_os_sistemas_op.Kernel.Resources.{liberar_recursos}
use ronaldinh_os_sistemas_op.Kernel.Released.{liberar_recursos-Kept}
use ronaldinh_os_sistemas_op.Kernel.Pids.{
  one, pids, given, count-free-last, Held, nobody, count-pids-remove, Held-Kept, delete_pcb-Held,
}

-- What the searches of `finishProcess` leave: the process they found is away.
abbrev AwayFrom : Option (Pcb × Kernel) → Type 0
AwayFrom none = Unit
AwayFrom (some (p, k)) = Held (one p.pid) k

remove_from_queues-Held :
    (pid : ℕ) (k : Kernel) → Held nobody k → AwayFrom (remove_from_queues pid k)
unfolding remove_from_queues
remove_from_queues-Held pid k h =
    let test = find_pcb_by_pid pid in
    elim (Option-cases (find test k.queue_news)) [
      | inr (p, e) ↦
          rw (remove_from_queues, e)
            (record {
              once = λ q. omega (arith, h.once q, count-pids-remove q test k.queue_news e);
            })
      | inl e₁ ↦ elim (Option-cases (find test k.queue_readys)) [
        | inr (p, e) ↦
            rw (remove_from_queues, e₁, e)
              (record {
                once = λ q. omega (arith, h.once q, count-pids-remove q test k.queue_readys e);
              })
        | inl e₂ ↦ elim (Option-cases (find test k.queue_aux)) [
          | inr (p, e) ↦
              rw (remove_from_queues, e₁, e₂, e)
                (record {
                  once = λ q. omega (arith, h.once q, count-pids-remove q test k.queue_aux e);
                })
          | inl e₃ ↦ elim (Option-cases (find test k.list_blockeds)) [
            | inr (p, e) ↦
                rw (remove_from_queues, e₁, e₂, e₃, e)
                  (record {
                    once = λ q. omega (arith, h.once q, count-pids-remove q test k.list_blockeds e);
                  })
            | inl e₄ ↦ rw (remove_from_queues, e₁, e₂, e₃, e₄) tt
          ]
        ]
      ]
    ]

-- Ending any pid leaves each pid in one place.
pub finish_process-Held :
    (pid : ℕ) (k : Kernel) → Held nobody k → Held nobody (finish_process pid k)
unfolding finish_process
finish_process-Held pid k h = elim (Bool-cases (is_running pid k.running)) [
  | inl runs ↦ rw (finish_process, runs) h
  | inr idle ↦ elim (Option-cases (remove_from_queues pid k)) [
    | inl e ↦ rw (finish_process, idle, e) h
    | inr ((p, k'), e) ↦
        let away : Held (one p.pid) k' = rw e at (remove_from_queues-Held pid k h) in
        rw (finish_process, idle, e)
          (liberar_recursos-Kept (Held nobody) (Held-Kept nobody) pid (delete_pcb p k')
            (delete_pcb-Held p k' away))
  ]
]

-- How often a pid stands in the queues.
abbrev pub queued : ℕ → Kernel → ℕ
queued pid k =
    count pid (pids k.queue_news)
    + count pid (pids k.queue_readys)
    + count pid (pids k.queue_aux)
    + count pid (pids k.list_blockeds)

find-pid :
    (pid : ℕ) (ps : List Pcb) {p : Pcb} → find (find_pcb_by_pid pid) ps ≡ some p → p.pid ≡ pid
unfolding find find_pcb_by_pid
find-pid pid [] e = cc
find-pid pid (q ∷ ps) {p = p} e = elim (Bool-cases (q.pid == pid)) [
  | inl hit ↦
      let same : q ≡ p = some-injective _ _ (rw (find, hit) at e) in
      let its : q.pid ≡ pid = ground arith in ap (λ (x : Pcb). x.pid) (sym same) ∙ its
  | inr miss ↦ find-pid pid ps (rw (find, miss) at e)
]

find-nobody :
    (pid : ℕ) (ps : List Pcb) → find (find_pcb_by_pid pid) ps ≡ none → count pid (pids ps) ≡ 0
unfolding find find_pcb_by_pid count
find-nobody pid [] e = refl
find-nobody pid (q ∷ ps) e = elim (Bool-cases (q.pid == pid)) [
  | inl hit ↦ absurd (let found = rw (find, hit) at e in cc)
  | inr miss ↦ rw miss (omega (arith, find-nobody pid ps (rw (find, miss) at e)))
]

found-count :
    (pid : ℕ) (ps : List Pcb) {p : Pcb}
    → find (find_pcb_by_pid pid) ps ≡ some p
    → 0 < count pid (pids ps)
found-count pid ps {p = p} e =
    let its = find-pid pid ps e in
    let here : one p.pid pid ≡ 1 = ground arith in
    omega (arith, here, count-pids-remove pid (find_pcb_by_pid pid) ps e)

-- What the searches find: a process of that pid, or no queue has it.
abbrev Found : ℕ → Kernel → Option (Pcb × Kernel) → Type 0
Found pid k none = queued pid k ≡ 0
Found pid k (some (p, k')) = (p.pid ≡ pid) × (0 < queued pid k) × (k'.free_pids ≡ k.free_pids)

remove_from_queues-Found : (pid : ℕ) (k : Kernel) → Found pid k (remove_from_queues pid k)
unfolding remove_from_queues
remove_from_queues-Found pid k =
    let test = find_pcb_by_pid pid in
    elim (Option-cases (find test k.queue_news)) [
      | inr (p, e) ↦
          rw (remove_from_queues, e)
            (find-pid pid k.queue_news e, omega (arith, found-count pid k.queue_news e), refl)
      | inl e₁ ↦ elim (Option-cases (find test k.queue_readys)) [
        | inr (p, e) ↦
            rw (remove_from_queues, e₁, e)
              (find-pid pid k.queue_readys e, omega (arith, found-count pid k.queue_readys e), refl)
        | inl e₂ ↦ elim (Option-cases (find test k.queue_aux)) [
          | inr (p, e) ↦
              rw (remove_from_queues, e₁, e₂, e)
                (find-pid pid k.queue_aux e, omega (arith, found-count pid k.queue_aux e), refl)
          | inl e₃ ↦ elim (Option-cases (find test k.list_blockeds)) [
            | inr (p, e) ↦
                rw (remove_from_queues, e₁, e₂, e₃, e)
                  (
                    find-pid pid k.list_blockeds e,
                    omega (arith, found-count pid k.list_blockeds e),
                    refl,
                  )
            | inl e₄ ↦
                rw (remove_from_queues, e₁, e₂, e₃, e₄)
                  (omega (
                    arith,
                    find-nobody pid k.queue_news e₁,
                    find-nobody pid k.queue_readys e₂,
                    find-nobody pid k.queue_aux e₃,
                    find-nobody pid k.list_blockeds e₄,
                  ))
          ]
        ]
      ]
    ]

unblocked-free_pids :
    (test : Pcb → Bool) (p : Pcb) (k : Kernel) → (unblocked test p k).free_pids ≡ k.free_pids
unfolding unblocked
unblocked-free_pids test p k = ground arith

liberar_recursos-free_pids :
    (pid : ℕ) (k : Kernel) → (liberar_recursos pid k).free_pids ≡ k.free_pids
liberar_recursos-free_pids pid k =
    liberar_recursos-Kept (λ k'. k'.free_pids ≡ k.free_pids)
      (record {
        resources = λ rs us k' s. s;
        unblocks = λ test p k' e s. unblocked-free_pids test p k' ∙ s;
      })
      pid k refl

-- Ending a pid, from a state with each pid in one place: where a queue has the process, and it does not
-- run, it is in no queue any more, its pid is free once, and each pid is in one place again; otherwise
-- it runs or is in no queue, and nothing changes.
pub finish_process-queued :
    (pid : ℕ) (k : Kernel)
    → Held nobody k
    → ((is_running pid k.running ≡ false)
        × (0 < queued pid k)
        × (queued pid (finish_process pid k) ≡ 0)
        × (count pid (finish_process pid k).free_pids ≡ 1)
        × Held nobody (finish_process pid k))
      ⊎ (((is_running pid k.running ≡ true) ⊎ (queued pid k ≡ 0)) × (finish_process pid k ≡ k))
unfolding finish_process delete_pcb release_pid
finish_process-queued pid k h = elim (Bool-cases (is_running pid k.running)) [
  | inl runs ↦ inr (inl runs, rw (finish_process, runs) refl)
  | inr idle ↦ elim (Option-cases (remove_from_queues pid k)) [
    | inl e ↦
        inr (inr (rw e at (remove_from_queues-Found pid k)), rw (finish_process, idle, e) refl)
    | inr ((p, k'), e) ↦
        let (its, some_queue, same) = rw e at (remove_from_queues-Found pid k) in
        let kept = finish_process-Held pid k h in
        let added : (finish_process pid k).free_pids ≡ k.free_pids ++ pid ∷ [] =
          rw (finish_process, idle, e)
            (liberar_recursos-free_pids pid (delete_pcb p k') ∙ cc (its, same)) in
        let last = count-free-last pid pid k.free_pids in
        let itself : one pid pid ≡ 1 = ground arith in
        let low : given k.next_pid pid ≤ 1 = ground arith in
        let low' : given (finish_process pid k).next_pid pid ≤ 1 = ground arith in
        let freed : count pid (finish_process pid k).free_pids ≡ 1 =
          omega (arith, ap (count pid) added, last, itself, h.once pid, some_queue, low) in
        inl (idle, some_queue, omega (arith, kept.once pid, freed, low'), freed, kept)
  ]
]
