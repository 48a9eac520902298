-- ===== src/Kernel/Steps.antt =====
-- The handlers of kernel/src/main.c that move processes: what the CPU and the interfaces report, the
-- end of a process, and the console's control of the planner.
use ronaldinh_os_sistemas_op.Common.{
  ℕ, ◌+◌, ◌-◌, [], ◌∷◌, ◌++◌, Bool, true, false, Option, none, some, ◌==◌, if◌then◌else◌, ltb, leb,
  find, remove_first,
}
use ronaldinh_os_sistemas_op.Kernel.State.{
  ready, exit, quantum_end, io, wait, error, console, unknown, Pcb, Kernel, Outcome, ends, waits,
  crashes,
}
use ronaldinh_os_sistemas_op.Kernel.Queues.{delete_pcb, block_pcb, desblock_pcb}
use ronaldinh_os_sistemas_op.Kernel.Resources.{liberar_recursos}

-- `findPcbByPid`.
unfoldable pub find_pcb_by_pid : ℕ → Pcb → Bool
find_pcb_by_pid pid pcb = pcb.pid == pid

-- The branch on the reason in the case PCB of `checkResponseOfCpu`.
unfoldable pub place_received : Pcb → Kernel → Kernel
unfolding delete_pcb block_pcb
place_received pcb k = elim pcb.reason [
  | exit ↦ delete_pcb pcb k
  | quantum_end ↦ record k {
    queue_readys = k.queue_readys ++ record pcb { state = ready } ∷ [];
    readys_avaiable = k.readys_avaiable + 1;
  }
  | io ↦ block_pcb pcb k
  | wait ↦ block_pcb pcb k
  | error ↦ delete_pcb pcb k
  | console ↦ delete_pcb pcb k
  | unknown ↦ k
]

-- The case PCB of `checkResponseOfCpu`.
unfoldable pub pcb_received : Pcb → Kernel → Kernel
unfolding place_received
pcb_received pcb k =
    let k' = place_received pcb (record k { running = none }) in
    record k' { running_process = k'.running_process + 1 }

-- The case FINISHED_IO of `operate`.
unfoldable pub finished_io : ℕ → Kernel → Outcome
unfolding desblock_pcb find_pcb_by_pid
finished_io pid k =
    if k.can_plan == 0
    then waits
    else elim (desblock_pcb (find_pcb_by_pid pid) k) [ none ↦ crashes | some k' ↦ ends k' ]

-- The case FINISHED_IO_ERROR of `operate`.
unfoldable pub finished_io_error : ℕ → Kernel → Outcome
unfolding find remove_first find_pcb_by_pid liberar_recursos delete_pcb
finished_io_error pid k =
    if k.can_plan == 0 then waits else elim (find (find_pcb_by_pid pid) k.list_blockeds) [
      | none ↦ crashes
      | some pcb ↦ ends (
          delete_pcb pcb (
            liberar_recursos pid
              (record k { list_blockeds = remove_first (find_pcb_by_pid pid) k.list_blockeds })))
    ]

-- The searches of `finishProcess`, in their order: which queue has the process.
unfoldable pub remove_from_queues : ℕ → Kernel → Option (Pcb × Kernel)
unfolding find remove_first find_pcb_by_pid
remove_from_queues pid k = elim (find (find_pcb_by_pid pid) k.queue_news) [
  | some pcb ↦ some (pcb, record k { queue_news = remove_first (find_pcb_by_pid pid) k.queue_news })
  | none ↦ elim (find (find_pcb_by_pid pid) k.queue_readys) [
    | some pcb ↦
        some (pcb, record k { queue_readys = remove_first (find_pcb_by_pid pid) k.queue_readys })
    | none ↦ elim (find (find_pcb_by_pid pid) k.queue_aux) [
      | some pcb ↦
          some (pcb, record k { queue_aux = remove_first (find_pcb_by_pid pid) k.queue_aux })
      | none ↦ elim (find (find_pcb_by_pid pid) k.list_blockeds) [
        | some pcb ↦
            some
              (pcb, record k { list_blockeds = remove_first (find_pcb_by_pid pid) k.list_blockeds })
        | none ↦ none
      ]
    ]
  ]
]

abbrev pub is_running : ℕ → Option Pcb → Bool
is_running pid none = false
is_running pid (some pcb) = pcb.pid == pid

-- `finishProcess`. For the running process it interrupts the CPU, with the reason "CONSOLE".
unfoldable pub finish_process : ℕ → Kernel → Kernel
unfolding remove_from_queues delete_pcb liberar_recursos
finish_process pid k = if is_running pid k.running then k else elim (remove_from_queues pid k) [
  | none ↦ k
  | some (pcb, k') ↦ liberar_recursos pid (delete_pcb pcb k')
]

-- `stopPlanner` and `runPlanner`.
unfoldable pub stop_planner : Kernel → Outcome
stop_planner k =
    if k.planner_is_running
    then (if k.can_plan == 0
        then waits
        else ends (record k { planner_is_running = false; can_plan = k.can_plan - 1 }))
    else ends k

unfoldable pub run_planner : Kernel → Kernel
run_planner k =
    if k.planner_is_running
    then k
    else record k { planner_is_running = true; can_plan = k.can_plan + 1 }

-- `changeMultiprogramming`. Its waits are one step here, which is made when they can all end; a
-- value of 0 stands for every number that is not above 0.
unfoldable pub change_multiprogramming : ℕ → Kernel → Outcome
change_multiprogramming new_value k =
    if new_value == 0
    then ends k
    else if ltb k.grado new_value
    then ends (record k { readys_max = k.readys_max + (new_value - k.grado); grado = new_value })
    else if leb (k.grado - new_value) k.readys_max
    then ends (record k { readys_max = k.readys_max - (k.grado - new_value); grado = new_value })
    else waits
