-- ===== src/Kernel/Console.antt =====
-- The console: kernel/src/interactive_console.c, and `console` of kernel/src/main.c.
use ronaldinh_os_sistemas_op.Common.{
  ℕ, zero, suc, ◌-◌, ◌^◌, List, [], ◌∷◌, ◌++◌, Bool, Option, none, some, ◌==◌, ◌&&◌, if◌then◌else◌,
  leb, ltb, map,
}
use ronaldinh_os_sistemas_op.Utils.Numbers.{get_value}
use ronaldinh_os_sistemas_op.Utils.Split.{split_string}
use ronaldinh_os_sistemas_op.Kernel.State.{Text, text_eq, Kernel, Outcome, ends, waits, crashes}
use ronaldinh_os_sistemas_op.Kernel.Queues.{create_pcb}
use ronaldinh_os_sistemas_op.Kernel.Steps.{
  finish_process, stop_planner, run_planner, change_multiprogramming,
}

-- What the file system has: the lines that `fgets` reads of a file that can be opened, and whether a
-- path exists.
pub record Scripts : Type 0 where
  pub read_lines : Text → Option (List Text)
  pub exists : Text → Bool

-- The commands, as texts: EJECUTAR_SCRIPT, INICIAR_PROCESO, FINALIZAR_PROCESO, DETENER_PLANIFICACION,
-- INICIAR_PLANIFICACION, MULTIPROGRAMACION and PROCESO_ESTADO.
abbrev pub ejecutar_script : Text
ejecutar_script = 69 ∷ 74 ∷ 69 ∷ 67 ∷ 85 ∷ 84 ∷ 65 ∷ 82 ∷ 95 ∷ 83 ∷ 67 ∷ 82 ∷ 73 ∷ 80 ∷ 84 ∷ []

abbrev pub iniciar_proceso : Text
iniciar_proceso = 73 ∷ 78 ∷ 73 ∷ 67 ∷ 73 ∷ 65 ∷ 82 ∷ 95 ∷ 80 ∷ 82 ∷ 79 ∷ 67 ∷ 69 ∷ 83 ∷ 79 ∷ []

abbrev pub finalizar_proceso : Text
finalizar_proceso =
    70 ∷ 73 ∷ 78 ∷ 65 ∷ 76 ∷ 73 ∷ 90 ∷ 65 ∷ 82 ∷ 95 ∷ 80 ∷ 82 ∷ 79 ∷ 67 ∷ 69 ∷ 83 ∷ 79 ∷ []

abbrev pub detener_planificacion : Text
detener_planificacion =
    68 ∷ 69 ∷ 84 ∷ 69 ∷ 78 ∷ 69 ∷ 82 ∷ 95 ∷ 80 ∷ 76 ∷ 65 ∷ 78 ∷ 73 ∷ 70 ∷ 73 ∷ 67 ∷ 65 ∷ 67 ∷ 73
    ∷ 79 ∷ 78 ∷ []

abbrev pub iniciar_planificacion : Text
iniciar_planificacion =
    73 ∷ 78 ∷ 73 ∷ 67 ∷ 73 ∷ 65 ∷ 82 ∷ 95 ∷ 80 ∷ 76 ∷ 65 ∷ 78 ∷ 73 ∷ 70 ∷ 73 ∷ 67 ∷ 65 ∷ 67 ∷ 73
    ∷ 79 ∷ 78 ∷ []

abbrev pub multiprogramacion : Text
multiprogramacion =
    77 ∷ 85 ∷ 76 ∷ 84 ∷ 73 ∷ 80 ∷ 82 ∷ 79 ∷ 71 ∷ 82 ∷ 65 ∷ 77 ∷ 65 ∷ 67 ∷ 73 ∷ 79 ∷ 78 ∷ []

-- `toupper`, and `toUpperCase`.
unfoldable pub to_upper : ℕ → ℕ
to_upper c = if leb 97 c && leb c 122 then c - 32 else c

unfoldable pub to_upper_case : Text → Text
unfolding to_upper
to_upper_case str = map to_upper str

-- `removeLeadingSlash`. A slash is 47.
unfoldable pub remove_leading_slash : Text → Text
remove_leading_slash [] = []
remove_leading_slash (c ∷ cs) = if c == 47 then cs else c ∷ cs

-- The step that follows one that ends.
abbrev pub continue_with : Outcome → (Kernel → Outcome) → Outcome
continue_with (ends k) f = f k
continue_with waits f = waits
continue_with crashes f = crashes

-- The commands with no word or one word behind them. With any other number, or an unknown command,
-- only a message is printed; PROCESO_ESTADO only prints.
unfoldable pub run_command : Scripts → Text → Text → List Text → Kernel → Outcome
run_command files base function [] k =
    if text_eq function detener_planificacion
    then stop_planner k
    else if text_eq function iniciar_planificacion
    then ends (run_planner k)
    else ends k
run_command files base function (word ∷ []) k =
    let all_path = base ++ remove_leading_slash word in
    let value = get_value word in
    if text_eq function iniciar_proceso
    then (if files.exists all_path then ends (create_pcb all_path k).1 else ends k)
    else if text_eq function finalizar_proceso
    then ends (finish_process value k)
    else if text_eq function multiprogramacion
    then change_multiprogramming (if ltb value (2 ^ 31) then value else 0) k
    else ends k
run_command files base function (word ∷ second ∷ more) k = ends k

-- The loop over the lines of a script, with the interpreter of a line. A line that is not split has no
-- queue of words, and `queue_pop` crashes.
unfoldable pub run_lines : (List Text → Kernel → Outcome) → List Text → Kernel → Outcome
unfolding split_string
run_lines interpret [] k = ends k
run_lines interpret (line ∷ lines) k = elim (split_string line) [
  | none ↦ crashes
  | some words ↦ continue_with (interpret words k) (run_lines interpret lines)
]

-- EJECUTAR_SCRIPT, on the lines of a file that can be opened or not.
unfoldable pub run_script : Option (List Text) → (List Text → Kernel → Outcome) → Kernel → Outcome
unfolding run_lines
run_script none interpret k = ends k
run_script (some lines) interpret k = run_lines interpret lines k

-- `interpetAndExecCommand`, on fuel: scripts may call scripts so deep. Without fuel the stack is full,
-- and with no word at all `toUpperCase` returns a null pointer that `strcmp` reads: both crash.
unfoldable pub interpret_and_exec_command : ℕ → Scripts → Text → List Text → Kernel → Outcome
unfolding to_upper_case run_command run_script
interpret_and_exec_command zero files base words k = crashes
interpret_and_exec_command (suc fuel) files base [] k = crashes
interpret_and_exec_command (suc fuel) files base (function ∷ args) k =
    let name = to_upper_case function in
    if text_eq name ejecutar_script
    then elim args [
      | path ∷ [] ↦
          run_script (files.read_lines (base ++ remove_leading_slash path))
            (interpret_and_exec_command fuel files base) k
      | _ ↦ ends k
    ]
    else run_command files base name args k

-- A round of `console`: an empty line and one with an open quote are passed over.
unfoldable pub console_round : ℕ → Scripts → Text → Text → Kernel → Outcome
unfolding interpret_and_exec_command
console_round fuel files base [] k = ends k
console_round fuel files base (c ∷ cs) k = elim (split_string (c ∷ cs)) [
  | none ↦ ends k
  | some words ↦ interpret_and_exec_command fuel files base words k
]
