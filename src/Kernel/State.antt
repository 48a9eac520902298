-- ===== src/Kernel/State.antt =====
-- The state of kernel/src/main.c: the process control blocks, the queues with their semaphores, and
-- the resources.
use ronaldinh_os_sistemas_op.Common.{
  ℕ, zero, suc, List, [], ◌∷◌, Bool, true, false, Option, ◌==◌, ◌&&◌,
}

abbrev pub Text : Type 0
Text = List ℕ

-- `strcmp(a, b) == 0`.
unfoldable pub text_eq : Text → Text → Bool
text_eq [] [] = true
text_eq [] (b ∷ bs) = false
text_eq (a ∷ rest) [] = false
text_eq (a ∷ rest) (b ∷ bs) = (a == b) && text_eq rest bs

-- `stateProcess` of utils/src/states.h; `exit_state` is EXIT.
pub data ProcessState : Type 0 where
  new ready blocked exec exit_state : ProcessState

-- The texts that `checkResponseOfCpu` compares with the reason; `unknown` is any other.
pub data Reason : Type 0 where
  exit quantum_end io wait error console unknown : Reason

-- `pcb`, without the registers, which the kernel only passes on.
pub record Pcb : Type 0 where
  pub pid : ℕ
  pub state : ProcessState
  pub quantum : ℕ
  pub reason : Reason
  pub info : Text

-- An `int` over the native numbers: `pos n` is n, and `negsuc n` is -(n + 1).
pub data ℤ : Type 0 where
  pos : ℕ → ℤ
  negsuc : ℕ → ℤ

unfoldable pub increment : ℤ → ℤ
increment (pos n) = pos (suc n)
increment (negsuc zero) = pos 0
increment (negsuc (suc n)) = negsuc n

unfoldable pub decrement : ℤ → ℤ
decrement (pos zero) = negsuc 0
decrement (pos (suc n)) = pos n
decrement (negsuc n) = negsuc (suc n)

abbrev pub is_negative : ℤ → Bool
is_negative (pos n) = false
is_negative (negsuc n) = true

-- A resource of the configuration: its name, of `recursosArray`, and its instances, of `recursos`.
pub record Resource : Type 0 where
  pub name : Text
  pub instancia : ℤ

-- `Recursos_de_PID`.
pub record ResourcesOfPid : Type 0 where
  pub pid : ℕ
  pub recursos : List Text

-- `processToMemory`, without the size of the path, which the kernel only sends.
pub record ProcessToMemory : Type 0 where
  pub pid : ℕ
  pub path : Text

-- `chosenPlanner`; any other name than "RR" and "VRR" is FIFO.
pub data Planner : Type 0 where
  fifo rr vrr : Planner

-- The globals. The semaphores are their counts. The PCB at the CPU is `currentyRunningPcb`.
-- The semaphore that each planner thread waits for next; it holds what the ones before gave it.
pub data Admission : Type 0 where
  waits_for_news waits_for_place waits_for_planner : Admission

pub data Dispatch : Type 0 where
  waits_to_plan waits_for_cpu waits_for_readys : Dispatch

pub record Kernel : Type 0 where
  pub planner : Planner
  pub max_quantum : ℕ
  pub grado : ℕ
  pub queue_news : List Pcb
  pub queue_readys : List Pcb
  pub queue_aux : List Pcb
  pub list_blockeds : List Pcb
  pub running : Option Pcb
  pub pcb_to_memory : List ProcessToMemory
  pub free_pids : List ℕ
  pub next_pid : ℕ
  pub recursos : List Resource
  pub resources_pcbs : List ResourcesOfPid
  pub news_avaiable : ℕ
  pub readys_max : ℕ
  pub readys_avaiable : ℕ
  pub running_process : ℕ
  pub can_plan : ℕ
  pub planner_is_running : Bool
  pub admission : Admission
  pub dispatch : Dispatch

-- How a step of a thread ends: in the state behind it, in a wait for a semaphore, or in a crash.
pub data Outcome : Type 0 where
  ends : Kernel → Outcome
  waits crashes : Outcome
