-- ===== src/Kernel/Queues.antt =====
-- Processes and the queues they stand in, kernel/src/main.c: creation, deletion, the two planners,
-- blocking and unblocking.
use ronaldinh_os_sistemas_op.Common.{
  ℕ, ◌+◌, ◌-◌, List, [], ◌∷◌, ◌++◌, Bool, true, false, Option, none, some, ◌==◌, if◌then◌else◌, ltb,
  find, remove_first,
}
use ronaldinh_os_sistemas_op.Kernel.State.{
  Text, new, ready, exec, blocked, unknown, Pcb, ResourcesOfPid, ProcessToMemory, Planner, fifo, rr,
  vrr, waits_for_news, waits_for_place, waits_for_planner, waits_to_plan, waits_for_cpu,
  waits_for_readys, Kernel, Outcome, ends, waits, crashes,
}

-- `newPcb`, of utils/src/pcb.c, with what the kernel reads of it.
unfoldable pub new_pcb : ℕ → Pcb
new_pcb pid = record { pid = pid; state = new; quantum = 0; reason = unknown; info = [] }

-- `getNewPid` and `releasePid`.
unfoldable pub get_new_pid : Kernel → ℕ × Kernel
get_new_pid k = elim k.free_pids [
  | [] ↦ (k.next_pid, record k { next_pid = k.next_pid + 1 })
  | id ∷ rest ↦ (id, record k { free_pids = rest })
]

unfoldable pub release_pid : ℕ → Kernel → Kernel
release_pid pid k = record k { free_pids = k.free_pids ++ pid ∷ [] }

-- `buscarRecursosDePID` and `crearRecursosDePID`.
unfoldable pub buscar_recursos_de_pid : ℕ → List ResourcesOfPid → Option ResourcesOfPid
unfolding find
buscar_recursos_de_pid pid rs = find (λ (r : ResourcesOfPid). r.pid == pid) rs

unfoldable pub crear_recursos_de_pid : ℕ → Kernel → ResourcesOfPid × Kernel
unfolding buscar_recursos_de_pid
crear_recursos_de_pid pid k = elim (buscar_recursos_de_pid pid k.resources_pcbs) [
  | some found ↦ (found, k)
  | none ↦
      let created : ResourcesOfPid = record { pid = pid; recursos = [] } in
      (created, record k { resources_pcbs = k.resources_pcbs ++ created ∷ [] })
]

-- `createPcb`.
unfoldable pub create_pcb : Text → Kernel → Pcb × Kernel
unfolding get_new_pid new_pcb crear_recursos_de_pid
create_pcb path k =
    let (pid, k₁) = get_new_pid k in
    let pcb = new_pcb pid in
    let k₂ = record k₁ {
      pcb_to_memory = k₁.pcb_to_memory ++ record { pid = pid; path = path } ∷ [];
      queue_news = k₁.queue_news ++ pcb ∷ [];
      news_avaiable = k₁.news_avaiable + 1;
    } in
    let (recursos_pid, k₃) = crear_recursos_de_pid pid k₂ in
    (pcb, record k₃ { resources_pcbs = k₃.resources_pcbs ++ recursos_pid ∷ [] })

-- `deletePcb`.
unfoldable pub delete_pcb : Pcb → Kernel → Kernel
unfolding remove_first release_pid
delete_pcb pcb k =
    let k' = release_pid pcb.pid (record k {
      pcb_to_memory = remove_first (λ (p : ProcessToMemory). p.pid == pcb.pid) k.pcb_to_memory;
    }) in
    record k' { readys_max = k'.readys_max + 1 }

-- The first process of the new ones becomes ready.
unfoldable pub admit : Kernel → Outcome
admit k = elim k.queue_news [
  | [] ↦ crashes
  | pcb ∷ rest ↦ ends (record k {
    queue_news = rest;
    queue_readys = k.queue_readys ++ record pcb { state = ready } ∷ [];
    readys_avaiable = k.readys_avaiable + 1;
  })
]

-- The next wait of `runnerProcessNewToReady`, for a new process, a place or the planner, with what
-- follows the last one.
unfoldable pub new_to_ready : Kernel → Outcome
unfolding admit
new_to_ready k = elim k.admission [
  | waits_for_news ↦
      if k.news_avaiable == 0
      then waits
      else ends (record k { news_avaiable = k.news_avaiable - 1; admission = waits_for_place })
  | waits_for_place ↦
      if k.readys_max == 0
      then waits
      else ends (record k { readys_max = k.readys_max - 1; admission = waits_for_planner })
  | waits_for_planner ↦
      if k.can_plan == 0 then waits else admit (record k { admission = waits_for_news })
]

-- `executePcb`.
unfoldable pub execute_pcb : Pcb → Kernel → Kernel
execute_pcb pcb k = record k { running = some (record pcb { state = exec }) }

-- `fifo`.
unfoldable pub fifo_queue : Kernel → Outcome
unfolding execute_pcb
fifo_queue k = elim k.queue_readys [
  | [] ↦ crashes
  | pcb ∷ rest ↦ ends (execute_pcb pcb (record k { queue_readys = rest }))
]

-- The dispatch of the next process, by the chosen planner.
unfoldable pub dispatch_next : Kernel → Outcome
unfolding fifo_queue execute_pcb
dispatch_next k = elim k.planner [
  | fifo ↦ fifo_queue k
  | rr ↦ fifo_queue k
  | vrr ↦ elim k.queue_aux [
    | [] ↦ fifo_queue k
    | pcb ∷ rest ↦ ends (execute_pcb pcb (record k { queue_aux = rest }))
  ]
]

-- The next wait of `runnerProcessToExecute`, for the planner, the CPU or a ready process, the last one
-- with the dispatch. The planner is not asked again while the thread waits for the other two.
unfoldable pub process_to_execute : Kernel → Outcome
unfolding dispatch_next
process_to_execute k = elim k.dispatch [
  | waits_to_plan ↦ if k.can_plan == 0 then waits else ends (record k { dispatch = waits_for_cpu })
  | waits_for_cpu ↦
      if k.running_process == 0
      then waits
      else ends (record k { running_process = k.running_process - 1; dispatch = waits_for_readys })
  | waits_for_readys ↦
      if k.readys_avaiable == 0
      then waits
      else dispatch_next
          (record k { readys_avaiable = k.readys_avaiable - 1; dispatch = waits_to_plan })
]

-- `blockPcb`.
unfoldable pub block_pcb : Pcb → Kernel → Kernel
block_pcb pcb k = record k {
  list_blockeds = k.list_blockeds ++ record pcb { state = blocked } ∷ [];
}

abbrev pub is_vrr : Planner → Bool
is_vrr fifo = false
is_vrr rr = false
is_vrr vrr = true

-- What `desblockPcb` does with the process it found. It is the first that passes the test, so
-- removing it is removing the first that passes.
unfoldable pub unblocked : (Pcb → Bool) → Pcb → Kernel → Kernel
unfolding remove_first
unblocked criteria found k =
    let pcb = record found { state = ready } in
    let k' = record k {
      list_blockeds = remove_first criteria k.list_blockeds;
      readys_avaiable = k.readys_avaiable + 1;
    } in
    if is_vrr k.planner
    then (if ltb pcb.quantum k.max_quantum
        then record k' { queue_aux = k.queue_aux ++ pcb ∷ [] }
        else record k' { queue_readys = k.queue_readys ++ pcb ∷ [] })
    else record k' { queue_readys = k.queue_readys ++ pcb ∷ [] }

-- `desblockPcb`: `none` is the crash where no process passes the test.
unfoldable pub desblock_pcb : (Pcb → Bool) → Kernel → Option Kernel
unfolding find unblocked
desblock_pcb criteria k = elim (find criteria k.list_blockeds) [
  | none ↦ none
  | some found ↦ some (unblocked criteria found k)
]
