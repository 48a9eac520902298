-- ===== src/Kernel/Events.antt =====
-- The threads of the kernel as one sequence of events: which handler of kernel/src/main.c runs.
use ronaldinh_os_sistemas_op.Common.{ℕ, some, find, ◌≡◌, ◌≢◌}
use ronaldinh_os_sistemas_op.Kernel.State.{Text, unknown, Pcb, Kernel, Outcome, ends}
use ronaldinh_os_sistemas_op.Kernel.Queues.{create_pcb, new_to_ready, process_to_execute}
use ronaldinh_os_sistemas_op.Kernel.Resources.{wait_resource, signal_resource}
use ronaldinh_os_sistemas_op.Kernel.Steps.{
  find_pcb_by_pid, pcb_received, finished_io, finished_io_error, stop_planner, run_planner,
  change_multiprogramming,
}

-- One wait of a planner thread with what follows it, one message, or one command.
pub data Event : Type 0 where
  creates : Text → Event
  admits dispatches stops runs : Event
  receives : Pcb → Event
  waits_for signals : Text → ℕ → Event
  io_ends io_fails grades : ℕ → Event

unfoldable pub handle : Event → Kernel → Outcome
unfolding create_pcb new_to_ready process_to_execute pcb_received wait_resource signal_resource
    finished_io finished_io_error stop_planner run_planner change_multiprogramming
handle (creates path) k = ends (create_pcb path k).1
handle admits k = new_to_ready k
handle dispatches k = process_to_execute k
handle stops k = stop_planner k
handle runs k = ends (run_planner k)
handle (receives pcb) k = ends (pcb_received pcb k)
handle (waits_for name pid) k = ends (wait_resource name pid k).1
handle (signals name pid) k = ends (signal_resource name pid k).1
handle (io_ends pid) k = finished_io pid k
handle (io_fails pid) k = finished_io_error pid k
handle (grades n) k = change_multiprogramming n k

-- What the other modules keep to: a PCB comes back only while its process is at the CPU and with a
-- reason that the kernel knows, and an interface reports a process that is blocked.
unfoldable pub Expected : Event → Kernel → Type 0
unfolding find find_pcb_by_pid
Expected (receives pcb) k =
    ((p : Pcb) × (k.running ≡ some p) × (pcb.pid ≡ p.pid)) × (pcb.reason ≢ unknown)
Expected (io_ends pid) k = (p : Pcb) × (find (find_pcb_by_pid pid) k.list_blockeds ≡ some p)
Expected (io_fails pid) k = (p : Pcb) × (find (find_pcb_by_pid pid) k.list_blockeds ≡ some p)
Expected _ k = Unit

-- The runs of the kernel from a state.
pub data Reaches (k : Kernel) : Kernel → Type 0 where
  start : Reaches k k
  step : {a b : Kernel} (e : Event) → Reaches k a → Expected e a → handle e a ≡ ends b → Reaches k b
