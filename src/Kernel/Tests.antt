-- ===== src/Kernel/Tests.antt =====
-- Runs of the kernel, after kernel/src/main.c: a process at the CPU, another that is blocked for a
-- resource, and one that is new.
use ronaldinh_os_sistemas_op.Common.{
  ℕ, ◌+◌, ◌<◌, ◌≤◌, ◌≡◌, ◌⊎◌, refl, [], ◌∷◌, ◌++◌, true, false, none, some, arith, find,
  remove_first, length, count,
}
use ronaldinh_os_sistemas_op.Kernel.State.{
  waits_for_news, waits_to_plan, waits_for_cpu, is_negative, ends, text_eq, new, exec, blocked,
  quantum_end, wait, unknown, Pcb, negsuc, increment, Resource, rr, Kernel,
}
use ronaldinh_os_sistemas_op.Kernel.Resources.{
  find_resource, find_pcb_by_context, continue, silence, empty_instance, wait_resource,
  signal_resource,
}
use ronaldinh_os_sistemas_op.Kernel.Steps.{
  find_pcb_by_pid, pcb_received, is_running, finish_process,
}
use ronaldinh_os_sistemas_op.Kernel.Events.{receives, handle, Expected, Reaches, start, step}
use ronaldinh_os_sistemas_op.Kernel.Balanced.{Balanced, news_taken}
use ronaldinh_os_sistemas_op.Kernel.Planned.{SafeOutcome}
use ronaldinh_os_sistemas_op.Kernel.Progress.{dispatch_waits, process_to_execute-progress}
use ronaldinh_os_sistemas_op.Kernel.Safe.{handle-Safe}
use ronaldinh_os_sistemas_op.Kernel.Pids.{Held, nobody}
use ronaldinh_os_sistemas_op.Kernel.OnePlace.{Reaches-Held}
use ronaldinh_os_sistemas_op.Kernel.Ended.{queued, finish_process-queued}
use ronaldinh_os_sistemas_op.Kernel.Killed.{finish_process-new}
use ronaldinh_os_sistemas_op.Kernel.Instances.{Unmoved, Woken, signal-wait, signal_resource-wakes}
use ronaldinh_os_sistemas_op.Utils.Numbers.{get_value}
use ronaldinh_os_sistemas_op.Utils.Split.{split_string}
use ronaldinh_os_sistemas_op.Kernel.Console.{
  Scripts, finalizar_proceso, ejecutar_script, to_upper_case, run_command, run_script,
  interpret_and_exec_command, console_round,
}
use ronaldinh_os_sistemas_op.Utils.Words.{is_separator, IsWord}
use ronaldinh_os_sistemas_op.Cpu.Names.{io_stdin_read_text, io_fs_write_text}
use ronaldinh_os_sistemas_op.Cpu.IoTexts.{std_io_text, fs_io_text}
use ronaldinh_os_sistemas_op.Kernel.IoFunction.{
  Io, is_interface_connected, io_function, sends, stdin_read, fs_write,
}
use ronaldinh_os_sistemas_op.Kernel.Delivered.{io_function-stdin_read, io_function-fs_write}
use ronaldinh_os_sistemas_op.Kernel.Typed.{console_round-Held}

abbrev at_the_cpu : Pcb
at_the_cpu = record { pid = 1; state = exec; quantum = 0; reason = quantum_end; info = [] }

-- It waits for the resource "R".
abbrev waiting : Pcb
waiting = record { pid = 2; state = blocked; quantum = 0; reason = wait; info = 82 ∷ [] }

abbrev just_new : Pcb
just_new = record { pid = 3; state = new; quantum = 0; reason = unknown; info = [] }

abbrev busy : Kernel
busy = record {
  planner = rr;
  max_quantum = 2000;
  grado = 4;
  queue_news = just_new ∷ [];
  queue_readys = [];
  queue_aux = [];
  list_blockeds = waiting ∷ [];
  running = some at_the_cpu;
  pcb_to_memory = [];
  free_pids = 0 ∷ [];
  next_pid = 4;
  recursos = record { name = 82 ∷ []; instancia = negsuc 0 } ∷ [];
  resources_pcbs = [];
  news_avaiable = 1;
  readys_max = 2;
  readys_avaiable = 0;
  running_process = 0;
  can_plan = 1;
  planner_is_running = true;
  admission = waits_for_news;
  dispatch = waits_to_plan;
}

busy-Balanced : Balanced busy
busy-Balanced = record {
  news = refl;
  readys = refl;
  cpu = refl;
  slots = refl;
  priority = λ e. refl;
}

received-Expected : Expected (receives at_the_cpu) busy
unfolding Expected
received-Expected = ((at_the_cpu, refl, refl), λ e. cc)

handle-Safe_example : SafeOutcome (handle (receives at_the_cpu) busy)
handle-Safe_example = handle-Safe (receives at_the_cpu) busy busy-Balanced received-Expected

one_event : Reaches busy (pcb_received at_the_cpu busy)
unfolding handle
one_event = step (receives at_the_cpu) start received-Expected refl

-- The dispatch thread waits for the CPU, which is free; process 1 is ready.
abbrev one_ready : Kernel
one_ready = record busy {
  queue_readys = at_the_cpu ∷ [];
  running = none;
  readys_avaiable = 1;
  running_process = 1;
  dispatch = waits_for_cpu;
}

one_ready-Balanced : Balanced one_ready
one_ready-Balanced = record {
  news = refl;
  readys = refl;
  cpu = refl;
  slots = refl;
  priority = λ e. refl;
}

process_to_execute-progress_example :
    (n : ℕ) × (n ≤ 3)
    × (k' : Kernel) × (dispatch_waits n one_ready ≡ ends k')
    × (p : Pcb) × (k'.running ≡ some (record p { state = exec }))
process_to_execute-progress_example =
    process_to_execute-progress one_ready one_ready-Balanced refl (omega arith) (omega arith)

finish_process-new_example :
    ((finish_process 3 busy).queue_news ≡ remove_first (find_pcb_by_pid 3) busy.queue_news)
    × ((finish_process 3 busy).news_avaiable + news_taken (finish_process 3 busy).admission
        ≡ length (finish_process 3 busy).queue_news + 1)
    × ((finish_process 3 busy).readys_max ≡ busy.readys_max + 1)
unfolding find find_pcb_by_pid
finish_process-new_example = finish_process-new 3 busy just_new busy-Balanced refl refl

abbrev resource_of_busy : Resource
resource_of_busy = record { name = 82 ∷ []; instancia = negsuc 0 }

signal-wait_example :
    (signal_resource (82 ∷ []) 1 (wait_resource (82 ∷ []) 1 busy).1).1.recursos ≡ busy.recursos
signal-wait_example = signal-wait (82 ∷ []) 1 1 busy

signal_resource-wakes_example :
    ((find_resource (82 ∷ []) busy.recursos ≡ none)
      × ((signal_resource (82 ∷ []) 1 busy).0 ≡ empty_instance)
      × Unmoved busy (signal_resource (82 ∷ []) 1 busy).1)
    ⊎ ((r : Resource) × (find_resource (82 ∷ []) busy.recursos ≡ some r)
        × (((is_negative (increment r.instancia) ≡ true)
              × ((signal_resource (82 ∷ []) 1 busy).0 ≡ silence)
              × Unmoved busy (signal_resource (82 ∷ []) 1 busy).1)
            ⊎ ((is_negative (increment r.instancia) ≡ false)
                × ((signal_resource (82 ∷ []) 1 busy).0 ≡ continue)
                × (((find (find_pcb_by_context (82 ∷ [])) busy.list_blockeds ≡ none)
                      × Unmoved busy (signal_resource (82 ∷ []) 1 busy).1)
                    ⊎ ((p : Pcb) × (find (find_pcb_by_context (82 ∷ [])) busy.list_blockeds
                          ≡ some p)
                        × Woken (82 ∷ []) p busy (signal_resource (82 ∷ []) 1 busy).1)))))
signal_resource-wakes_example = signal_resource-wakes (82 ∷ []) 1 busy

busy-Held : Held nobody busy
unfolding count
busy-Held = record { once = λ q. ground arith }

Reaches-Held_example : Held nobody (pcb_received at_the_cpu busy)
Reaches-Held_example =
    Reaches-Held busy (pcb_received at_the_cpu busy) busy-Balanced busy-Held one_event

finish_process-queued_example :
    ((is_running 3 busy.running ≡ false)
      × (0 < queued 3 busy)
      × (queued 3 (finish_process 3 busy) ≡ 0)
      × (count 3 (finish_process 3 busy).free_pids ≡ 1)
      × Held nobody (finish_process 3 busy))
    ⊎ (((is_running 3 busy.running ≡ true) ⊎ (queued 3 busy ≡ 0)) × (finish_process 3 busy ≡ busy))
finish_process-queued_example = finish_process-queued 3 busy busy-Held

-- The script at "/a" ends process 3.
abbrev one_script : Scripts
one_script = record {
  read_lines = λ path. some ((finalizar_proceso ++ 32 ∷ 51 ∷ 10 ∷ []) ∷ []);
  exists = λ path. true;
}

console_round-Held_example : Held nobody (finish_process 3 busy)
unfolding console_round interpret_and_exec_command to_upper_case run_command run_script text_eq
    split_string get_value
console_round-Held_example =
    console_round-Held 2 one_script [] (ejecutar_script ++ 32 ∷ 47 ∷ 97 ∷ []) busy busy-Held

-- The interface "K" at socket 9, and the file "A".
abbrev keyboard : Io
keyboard = record { name = 75 ∷ []; socket = 9 }

keyboard-IsWord : IsWord (75 ∷ [])
unfolding is_separator
keyboard-IsWord = record { short = omega arith; solid = (refl, tt) }

file-IsWord : IsWord (65 ∷ [])
unfolding is_separator
file-IsWord = record { short = omega arith; solid = (refl, tt) }

keyboard-connected : is_interface_connected (keyboard ∷ []) (75 ∷ []) ≡ some keyboard
unfolding is_interface_connected find text_eq
keyboard-connected = refl

io_function-stdin_read_example :
    io_function (keyboard ∷ []) 2 (std_io_text io_stdin_read_text (75 ∷ []) 64 20) busy
    ≡ sends 9 (stdin_read (record { pid = 2; physical_adress = 64; length_to_read_or_write = 20 }))
io_function-stdin_read_example =
    io_function-stdin_read (keyboard ∷ []) 2 busy (75 ∷ []) 64 20 keyboard keyboard-IsWord
      (omega arith) (omega arith) (omega arith) keyboard-connected

io_function-fs_write_example :
    io_function (keyboard ∷ []) 2 (fs_io_text io_fs_write_text (75 ∷ []) (65 ∷ []) 64 20 8) busy
    ≡ sends 9 (
        fs_write (record {
          pid = 2;
          file_name = 65 ∷ [];
          physical_adress = 64;
          length_to_write = 20;
          file_pointer = 8;
        }))
io_function-fs_write_example =
    io_function-fs_write (keyboard ∷ []) 2 busy (75 ∷ []) (65 ∷ []) 64 20 8 keyboard keyboard-IsWord
      file-IsWord (omega arith, omega arith, omega arith) (omega arith) keyboard-connected
