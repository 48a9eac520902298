-- ===== src/Kernel/Typed.antt =====
-- What is typed at the console leaves each pid in one place.
use ronaldinh_os_sistemas_op.Common.{
  ℕ, zero, suc, ◌^◌, List, [], ◌∷◌, ◌++◌, Bool, true, false, Option, none, some, if◌then◌else◌, ltb,
  Option-cases, inl, inr,
}
use ronaldinh_os_sistemas_op.Utils.Numbers.{get_value}
use ronaldinh_os_sistemas_op.Utils.Split.{split_string}
use ronaldinh_os_sistemas_op.Kernel.State.{Text, text_eq, Kernel, Outcome, ends, waits, crashes}
use ronaldinh_os_sistemas_op.Kernel.Pids.{Held, nobody, create_pcb-Held}
use ronaldinh_os_sistemas_op.Kernel.Whereabouts.{HeldOutcome}
use ronaldinh_os_sistemas_op.Kernel.OnePlace.{
  stop_planner-Held, run_planner-Held, change_multiprogramming-Held,
}
use ronaldinh_os_sistemas_op.Kernel.Ended.{finish_process-Held}
use ronaldinh_os_sistemas_op.Kernel.Console.{
  Scripts, ejecutar_script, iniciar_proceso, finalizar_proceso, detener_planificacion,
  iniciar_planificacion, multiprogramacion, to_upper_case, remove_leading_slash, continue_with,
  run_command, run_lines, run_script, interpret_and_exec_command, console_round,
}

if-HeldOutcome :
    (b : Bool) (x y : Outcome) → HeldOutcome x → HeldOutcome y → HeldOutcome (if b then x else y)
if-HeldOutcome true x y hx hy = hx
if-HeldOutcome false x y hx hy = hy

run_command-Held :
    (files : Scripts) (base function : Text) (args : List Text) (k : Kernel)
    → Held nobody k
    → HeldOutcome (run_command files base function args k)
unfolding run_command
run_command-Held files base function [] k h =
    if-HeldOutcome (text_eq function detener_planificacion) _ _ (stop_planner-Held k h)
      (if-HeldOutcome (text_eq function iniciar_planificacion) _ _ (run_planner-Held k h) h)
run_command-Held files base function (word ∷ []) k h =
    let path = base ++ remove_leading_slash word in
    let value = get_value word in
    let grade : ℕ = if ltb value (2 ^ 31) then value else 0 in
    if-HeldOutcome (text_eq function iniciar_proceso) _ _
      (if-HeldOutcome (files.exists path) _ _ (create_pcb-Held path k h) h)
      (if-HeldOutcome (text_eq function finalizar_proceso) _ _ (finish_process-Held value k h) (
        if-HeldOutcome (text_eq function multiprogramacion) _ _
          (change_multiprogramming-Held grade k h) h))
run_command-Held files base function (word ∷ second ∷ more) k h = h

continue_with-Held :
    (o : Outcome) (f : Kernel → Outcome)
    → ((k : Kernel) → Held nobody k → HeldOutcome (f k))
    → HeldOutcome o
    → HeldOutcome (continue_with o f)
continue_with-Held (ends k) f hf h = hf k h
continue_with-Held waits f hf h = tt
continue_with-Held crashes f hf h = tt

run_lines-Held :
    (interpret : List Text → Kernel → Outcome) (lines : List Text)
    → ((words : List Text) (k : Kernel) → Held nobody k → HeldOutcome (interpret words k))
    → (k : Kernel) → Held nobody k
    → HeldOutcome (run_lines interpret lines k)
unfolding run_lines
run_lines-Held interpret [] hi k h = h
run_lines-Held interpret (line ∷ lines) hi k h = elim (Option-cases (split_string line)) [
  | inl e ↦ rw (run_lines, e) tt
  | inr (words, e) ↦
      rw (run_lines, e)
        (continue_with-Held (interpret words k) (run_lines interpret lines)
          (run_lines-Held interpret lines hi) (hi words k h))
]

script-Held :
    (found : Option (List Text)) (interpret : List Text → Kernel → Outcome) (k : Kernel)
    → ((words : List Text) (k' : Kernel) → Held nobody k' → HeldOutcome (interpret words k'))
    → Held nobody k
    → HeldOutcome (run_script found interpret k)
unfolding run_script
script-Held none interpret k hi h = h
script-Held (some lines) interpret k hi h = run_lines-Held interpret lines hi k h

interpret-Held :
    (fuel : ℕ) (files : Scripts) (base : Text) (words : List Text) (k : Kernel)
    → Held nobody k
    → HeldOutcome (interpret_and_exec_command fuel files base words k)
unfolding interpret_and_exec_command
interpret-Held zero files base words k h = tt
interpret-Held (suc fuel) files base [] k h = tt
interpret-Held (suc fuel) files base (function ∷ []) k h =
    if-HeldOutcome (text_eq (to_upper_case function) ejecutar_script) _ _ h
      (run_command-Held files base (to_upper_case function) [] k h)
interpret-Held (suc fuel) files base (function ∷ path ∷ []) k h =
    if-HeldOutcome (text_eq (to_upper_case function) ejecutar_script) _ _
      (script-Held (files.read_lines (base ++ remove_leading_slash path))
        (interpret_and_exec_command fuel files base) k
        (λ words k' h'. interpret-Held fuel files base words k' h') h)
      (run_command-Held files base (to_upper_case function) (path ∷ []) k h)
interpret-Held (suc fuel) files base (function ∷ path ∷ second ∷ more) k h =
    if-HeldOutcome (text_eq (to_upper_case function) ejecutar_script) _ _ h
      (run_command-Held files base (to_upper_case function) (path ∷ second ∷ more) k h)

-- Whatever line is typed at the console, and whatever scripts it calls, with each pid in one place
-- before: where the commands end, each pid is in one place again, each below the next one held once,
-- by a process or by the list of free pids.
pub console_round-Held :
    (fuel : ℕ) (files : Scripts) (base line : Text) (k : Kernel)
    → Held nobody k
    → HeldOutcome (console_round fuel files base line k)
unfolding console_round
console_round-Held fuel files base [] k h = h
console_round-Held fuel files base (c ∷ cs) k h = elim (Option-cases (split_string (c ∷ cs))) [
  | inl e ↦ rw (console_round, e) h
  | inr (words, e) ↦ rw (console_round, e) (interpret-Held fuel files base words k h)
]
