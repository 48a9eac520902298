-- ===== src/Kernel/Released.antt =====
-- WAIT, SIGNAL and the release of resources, kernel/src/main.c, keep what resources and unblocking keep.
use ronaldinh_os_sistemas_op.Common.{
  Bool, ◌≡◌, some, ℕ, List, [], ◌∷◌, find, Bool-cases, Option-cases, inl, inr,
}
use ronaldinh_os_sistemas_op.Kernel.State.{
  Pcb, Resource, ResourcesOfPid, Text, Kernel, increment, decrement, is_negative,
}
use ronaldinh_os_sistemas_op.Kernel.Queues.{unblocked, desblock_pcb, buscar_recursos_de_pid}
use ronaldinh_os_sistemas_op.Kernel.Resources.{
  find_resource, agregar_recurso, remover_recurso, find_pcb_by_context, wait_resource, wake,
  signal_resource, liberar_recurso, liberar_each, liberar_recursos,
}

-- A property of the kernel that no change of the resources touches and that unblocking a blocked
-- process keeps.
pub record Kept (P : Kernel → Type 0) : Type 0 where
  pub resources :
      (rs : List Resource) (us : List ResourcesOfPid) (k : Kernel)
      → P k
      → P (record k { recursos = rs; resources_pcbs = us })
  pub unblocks :
      (test : Pcb → Bool) (p : Pcb) (k : Kernel)
      → find test k.list_blockeds ≡ some p
      → P k
      → P (unblocked test p k)

module _ (P : Kernel → Type 0) (law : Kept P) where
  pub wake-Kept : (name : Text) (k : Kernel) → P k → P (wake name k)
  unfolding wake desblock_pcb
  wake-Kept name k b = elim (Option-cases (find (find_pcb_by_context name) k.list_blockeds)) [
    | inl e ↦ rw (wake, desblock_pcb, e) b
    | inr (p, e) ↦ rw (wake, desblock_pcb, e) (law.unblocks (find_pcb_by_context name) p k e b)
  ]

  pub wait_resource-Kept :
      (name : Text) (pid : ℕ) (k : Kernel) → P k → P (wait_resource name pid k).1
  unfolding wait_resource agregar_recurso
  wait_resource-Kept name pid k b = elim (Option-cases (find_resource name k.recursos)) [
    | inl e ↦ rw (wait_resource, e) b
    | inr (r, e) ↦ elim (Bool-cases (is_negative (decrement r.instancia))) [
      | inl n ↦ rw (wait_resource, e, n) (law.resources _ _ _ b)
      | inr n ↦ rw (wait_resource, e, n) (law.resources _ _ _ b)
    ]
  ]

  pub signal_resource-Kept :
      (name : Text) (pid : ℕ) (k : Kernel) → P k → P (signal_resource name pid k).1
  unfolding signal_resource remover_recurso
  signal_resource-Kept name pid k b = elim (Option-cases (find_resource name k.recursos)) [
    | inl e ↦ rw (signal_resource, e) b
    | inr (r, e) ↦ elim (Bool-cases (is_negative (increment r.instancia))) [
      | inl n ↦ rw (signal_resource, e, n) (law.resources _ _ _ b)
      | inr n ↦ rw (signal_resource, e, n) (wake-Kept name _ (law.resources _ _ _ b))
    ]
  ]

  liberar_recurso-Kept : (pid : ℕ) (name : Text) (k : Kernel) → P k → P (liberar_recurso pid name k)
  unfolding liberar_recurso remover_recurso
  liberar_recurso-Kept pid name k b = elim (Option-cases (find_resource name k.recursos)) [
    | inl e ↦ rw (liberar_recurso, e) (wake-Kept name _ (law.resources _ _ _ b))
    | inr (r, e) ↦ rw (liberar_recurso, e) (wake-Kept name _ (law.resources _ _ _ b))
  ]

  liberar_each-Kept :
      (pid : ℕ) (names : List Text) (k : Kernel) → P k → P (liberar_each pid names k)
  unfolding liberar_each
  liberar_each-Kept pid [] k b = b
  liberar_each-Kept pid (name ∷ names) k b =
      liberar_each-Kept pid names (liberar_recurso pid name k) (liberar_recurso-Kept pid name k b)

  pub liberar_recursos-Kept : (pid : ℕ) (k : Kernel) → P k → P (liberar_recursos pid k)
  unfolding liberar_recursos
  liberar_recursos-Kept pid k b =
      elim (Option-cases (buscar_recursos_de_pid pid k.resources_pcbs)) [
        | inl e ↦ rw (liberar_recursos, e) b
        | inr (r, e) ↦
            rw (liberar_recursos, e) (law.resources _ _ _ (liberar_each-Kept pid r.recursos k b))
      ]
