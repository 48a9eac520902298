-- ===== src/Kernel/Resources.antt =====
-- WAIT, SIGNAL and the release of a process's resources, kernel/src/main.c.
use ronaldinh_os_sistemas_op.Common.{
  ℕ, List, [], ◌∷◌, ◌++◌, Bool, Option, none, some, ◌==◌, if◌then◌else◌, find, remove_first,
}
use ronaldinh_os_sistemas_op.Kernel.State.{
  Text, text_eq, Pcb, ℤ, increment, decrement, is_negative, Resource, ResourcesOfPid, Kernel,
}
use ronaldinh_os_sistemas_op.Kernel.Queues.{desblock_pcb, buscar_recursos_de_pid}

-- `findIndexOfString`, and the instances at the index it finds.
unfoldable pub find_resource : Text → List Resource → Option Resource
unfolding find text_eq
find_resource name rs = find (λ (r : Resource). text_eq r.name name) rs

unfoldable pub set_instancia : Text → ℤ → List Resource → List Resource
unfolding text_eq
set_instancia name v [] = []
set_instancia name v (r ∷ rs) =
    let rest = set_instancia name v rs in
    if text_eq r.name name then record r { instancia = v } ∷ rs else r ∷ rest

-- A change of the list that `buscarRecursosDePID` finds: the first of the process, if there is one.
unfoldable pub update_recursos :
    ℕ → (List Text → List Text) → List ResourcesOfPid → List ResourcesOfPid
update_recursos pid f [] = []
update_recursos pid f (r ∷ rs) =
    let rest = update_recursos pid f rs in
    if r.pid == pid then record r { recursos = f r.recursos } ∷ rs else r ∷ rest

-- `agregarRecurso` and `removerRecurso`.
unfoldable pub agregar_recurso : ℕ → Text → Kernel → Kernel
unfolding update_recursos
agregar_recurso pid name k = record k {
  resources_pcbs = update_recursos pid (λ l. l ++ name ∷ []) k.resources_pcbs;
}

unfoldable pub remover_recurso : ℕ → Text → Kernel → Kernel
unfolding update_recursos remove_first text_eq
remover_recurso pid name k = record k {
  resources_pcbs = update_recursos pid (remove_first (λ elem. text_eq elem name)) k.resources_pcbs;
}

-- The answers to the CPU; a CPU that gets `silence` waits on.
pub data Answer : Type 0 where
  continue block empty_instance silence : Answer

-- `findPcbByContext`.
unfoldable pub find_pcb_by_context : Text → Pcb → Bool
unfolding text_eq
find_pcb_by_context name pcb = text_eq pcb.info name

-- The case WAIT of `checkResponseOfCpu`.
unfoldable pub wait_resource : Text → ℕ → Kernel → Answer × Kernel
unfolding find_resource set_instancia agregar_recurso
wait_resource name pid k = elim (find_resource name k.recursos) [
  | none ↦ (empty_instance, k)
  | some r ↦
      let left = decrement r.instancia in
      let k' =
        agregar_recurso pid name (record k { recursos = set_instancia name left k.recursos }) in
      if is_negative left then (block, k') else (continue, k')
]

-- A process that waits for the resource is unblocked, if there is one.
unfoldable pub wake : Text → Kernel → Kernel
unfolding desblock_pcb find_pcb_by_context
wake name k = elim (desblock_pcb (find_pcb_by_context name) k) [ none ↦ k | some k' ↦ k' ]

-- The case SIGNAL of `checkResponseOfCpu`.
unfoldable pub signal_resource : Text → ℕ → Kernel → Answer × Kernel
unfolding find_resource set_instancia remover_recurso wake
signal_resource name pid k = elim (find_resource name k.recursos) [
  | none ↦ (empty_instance, k)
  | some r ↦
      let left = increment r.instancia in
      let k' =
        remover_recurso pid name (record k { recursos = set_instancia name left k.recursos }) in
      if is_negative left then (silence, k') else (continue, wake name k')
]

-- `liberarRecurso`, for one resource that the process had.
unfoldable pub liberar_recurso : ℕ → Text → Kernel → Kernel
unfolding find_resource set_instancia remover_recurso wake
liberar_recurso pid name k =
    let k₁ = remover_recurso pid name k in
    let k₂ : Kernel = elim (find_resource name k₁.recursos) [
      | none ↦ k₁
      | some r ↦ record k₁ { recursos = set_instancia name (increment r.instancia) k₁.recursos }
    ] in
    wake name k₂

-- The loop of `liberarRecursos`, over the resources that are left.
unfoldable pub liberar_each : ℕ → List Text → Kernel → Kernel
unfolding liberar_recurso
liberar_each pid [] k = k
liberar_each pid (name ∷ names) k = liberar_each pid names (liberar_recurso pid name k)

-- `liberarRecursos`. The list that it clears at its end is empty by then or keeps no resource.
unfoldable pub liberar_recursos : ℕ → Kernel → Kernel
unfolding buscar_recursos_de_pid liberar_each update_recursos
liberar_recursos pid k = elim (buscar_recursos_de_pid pid k.resources_pcbs) [
  | none ↦ k
  | some r ↦
      let k' = liberar_each pid r.recursos k in
      record k' { resources_pcbs = update_recursos pid (λ l. []) k'.resources_pcbs }
]
