-- ===== src/Kernel/Instances.antt =====
-- The instances of a resource over WAIT and SIGNAL, the cases of `checkResponseOfCpu` of
-- kernel/src/main.c.
use ronaldinh_os_sistemas_op.Common.{
  remove_first, ◌⊎◌, ltb, ℕ, zero, suc, ◌≡◌, refl, ap, ◌∙◌, List, [], ◌∷◌, ◌++◌, true, false, none,
  some, arith, find, Bool-cases, Option-cases, inl, inr,
}
use ronaldinh_os_sistemas_op.Kernel.State.{
  ready, Text, Pcb, ℤ, pos, negsuc, Kernel, Resource, increment, decrement, is_negative,
}
use ronaldinh_os_sistemas_op.Kernel.Queues.{is_vrr, desblock_pcb, unblocked}
use ronaldinh_os_sistemas_op.Kernel.Resources.{
  find_resource, set_instancia, agregar_recurso, remover_recurso, find_pcb_by_context, continue,
  empty_instance, silence, wait_resource, wake, signal_resource,
}

find_resource-set :
    (name : Text) (v : ℤ) (rs : List Resource) {r : Resource}
    → find_resource name rs ≡ some r
    → find_resource name (set_instancia name v rs) ≡ some (record r { instancia = v })
unfolding find_resource set_instancia find
find_resource-set name v [] e = cc
find_resource-set name v (q ∷ rs) {r} e = ground (arith, find_resource-set name v rs {r = r})

set_instancia-set :
    (name : Text) (v w : ℤ) (rs : List Resource)
    → set_instancia name v (set_instancia name w rs) ≡ set_instancia name v rs
unfolding set_instancia
set_instancia-set name v w [] = refl
set_instancia-set name v w (q ∷ rs) = ground (arith, set_instancia-set name v w rs)

set_instancia-same :
    (name : Text) (rs : List Resource) {r : Resource}
    → find_resource name rs ≡ some r
    → set_instancia name r.instancia rs ≡ rs
unfolding set_instancia find_resource find
set_instancia-same name [] e = cc
set_instancia-same name (q ∷ rs) {r} e = ground (arith, set_instancia-same name rs {r = r})

increment-decrement : (z : ℤ) → increment (decrement z) ≡ z
unfolding increment decrement
increment-decrement (pos zero) = refl
increment-decrement (pos (suc n)) = refl
increment-decrement (negsuc n) = refl

wake-recursos : (name : Text) (k : Kernel) → (wake name k).recursos ≡ k.recursos
unfolding wake desblock_pcb unblocked
wake-recursos name k =
    ground (arith, Option-cases (find (find_pcb_by_context name) k.list_blockeds))

module _ (name : Text) (pid : ℕ) (k : Kernel) where
  wait_resource-none :
      find_resource name k.recursos ≡ none → (wait_resource name pid k).1.recursos ≡ k.recursos
  unfolding wait_resource
  wait_resource-none e = rw (wait_resource, e) refl

  signal_resource-none :
      find_resource name k.recursos ≡ none → (signal_resource name pid k).1.recursos ≡ k.recursos
  unfolding signal_resource
  signal_resource-none e = rw (signal_resource, e) refl

  wait_resource-some :
      (r : Resource)
      → find_resource name k.recursos ≡ some r
      → (wait_resource name pid k).1.recursos
        ≡ set_instancia name (decrement r.instancia) k.recursos
  unfolding wait_resource agregar_recurso
  wait_resource-some r e = elim (Bool-cases (is_negative (decrement r.instancia))) [
    | inl n ↦ rw (wait_resource, e, n) refl
    | inr n ↦ rw (wait_resource, e, n) refl
  ]

  signal_resource-some :
      (r : Resource)
      → find_resource name k.recursos ≡ some r
      → (signal_resource name pid k).1.recursos
        ≡ set_instancia name (increment r.instancia) k.recursos
  unfolding signal_resource remover_recurso
  signal_resource-some r e = elim (Bool-cases (is_negative (increment r.instancia))) [
    | inl n ↦ rw (signal_resource, e, n) refl
    | inr n ↦
        rw (signal_resource, e, n)
          (wake-recursos name (
            remover_recurso pid name
              (record k { recursos = set_instancia name (increment r.instancia) k.recursos })))
  ]

-- A SIGNAL for a resource right behind a WAIT for it, by any processes, leaves every resource the
-- instances it had.
pub signal-wait :
    (name : Text) (pid pid' : ℕ) (k : Kernel)
    → (signal_resource name pid' (wait_resource name pid k).1).1.recursos ≡ k.recursos
signal-wait name pid pid' k = elim (Option-cases (find_resource name k.recursos)) [
  | inl e ↦
      let same = wait_resource-none name pid k e in
      signal_resource-none name pid' (wait_resource name pid k).1 (ap (find_resource name) same ∙ e)
      ∙ same
  | inr (r, e) ↦
      let taken = wait_resource-some name pid k r e in
      let again = find_resource-set name (decrement r.instancia) k.recursos e in
      signal_resource-some name pid' (wait_resource name pid k).1
        (record r { instancia = decrement r.instancia }) (ap (find_resource name) taken ∙ again)
      ∙ rw (taken, increment-decrement r.instancia)
          (set_instancia-set name r.instancia (decrement r.instancia) k.recursos
            ∙ set_instancia-same name k.recursos e)
]

-- No process has moved.
unfoldable pub Unmoved : Kernel → Kernel → Type 0
Unmoved k k' =
    (k'.list_blockeds ≡ k.list_blockeds)
    × (k'.queue_readys ≡ k.queue_readys)
    × (k'.queue_aux ≡ k.queue_aux)

-- The first process that waits for a resource has moved to one of the queues of ready processes.
unfoldable pub Woken : Text → Pcb → Kernel → Kernel → Type 0
unfolding find_pcb_by_context remove_first
Woken name p k k' =
    (k'.list_blockeds ≡ remove_first (find_pcb_by_context name) k.list_blockeds)
    × (((k'.queue_readys ≡ k.queue_readys ++ record p { state = ready } ∷ [])
          × (k'.queue_aux ≡ k.queue_aux))
        ⊎ ((k'.queue_aux ≡ k.queue_aux ++ record p { state = ready } ∷ [])
            × (k'.queue_readys ≡ k.queue_readys)))

unblocked-Woken :
    (name : Text) (p : Pcb) (k : Kernel) → Woken name p k (unblocked (find_pcb_by_context name) p k)
unfolding unblocked Woken
unblocked-Woken name p k = elim (Bool-cases (is_vrr k.planner)) [
  | inl v ↦ elim (Bool-cases (ltb p.quantum k.max_quantum)) [
    | inl low ↦ rw (unblocked, v, low) (refl, inr (refl, refl))
    | inr high ↦ rw (unblocked, v, high) (refl, inl (refl, refl))
  ]
  | inr n ↦ rw (unblocked, n) (refl, inl (refl, refl))
]

-- What `wake` does, whoever waits.
wake-cases :
    (name : Text) (k : Kernel)
    → ((find (find_pcb_by_context name) k.list_blockeds ≡ none) × Unmoved k (wake name k))
      ⊎ ((p : Pcb) × (find (find_pcb_by_context name) k.list_blockeds ≡ some p)
          × Woken name p k (wake name k))
unfolding wake desblock_pcb Unmoved
wake-cases name k = elim (Option-cases (find (find_pcb_by_context name) k.list_blockeds)) [
  | inl e ↦ inl (e, rw (wake, desblock_pcb, e) (refl, refl, refl))
  | inr (p, e) ↦ inr (p, e, rw (wake, desblock_pcb, e) (unblocked-Woken name p k))
]

-- A SIGNAL of a name that is no resource is answered as such and moves nobody. For a resource whose
-- instances stay below 0 with the one that the SIGNAL gives back, there is no answer, and nobody moves.
-- Otherwise the answer is CONTINUE, and the first process that waits for the resource leaves the blocked
-- ones for a queue of ready processes, or, if nobody waits, nobody moves.
pub signal_resource-wakes :
    (name : Text) (pid : ℕ) (k : Kernel)
    → ((find_resource name k.recursos ≡ none)
        × ((signal_resource name pid k).0 ≡ empty_instance)
        × Unmoved k (signal_resource name pid k).1)
      ⊎ ((r : Resource) × (find_resource name k.recursos ≡ some r)
          × (((is_negative (increment r.instancia) ≡ true)
                × ((signal_resource name pid k).0 ≡ silence)
                × Unmoved k (signal_resource name pid k).1)
              ⊎ ((is_negative (increment r.instancia) ≡ false)
                  × ((signal_resource name pid k).0 ≡ continue)
                  × (((find (find_pcb_by_context name) k.list_blockeds ≡ none)
                        × Unmoved k (signal_resource name pid k).1)
                      ⊎ ((p : Pcb) × (find (find_pcb_by_context name) k.list_blockeds ≡ some p)
                          × Woken name p k (signal_resource name pid k).1)))))
unfolding signal_resource remover_recurso Unmoved Woken
signal_resource-wakes name pid k = elim (Option-cases (find_resource name k.recursos)) [
  | inl e ↦ inl (e, rw (signal_resource, e) refl, rw (signal_resource, e) (refl, refl, refl))
  | inr (r, e) ↦
      let taken =
        remover_recurso pid name
          (record k { recursos = set_instancia name (increment r.instancia) k.recursos }) in
      elim (Bool-cases (is_negative (increment r.instancia))) [
        | inl owes ↦ inr (
          r,
          e,
          inl (
            owes,
            rw (signal_resource, e, owes) refl,
            rw (signal_resource, e, owes) (refl, refl, refl),
          ),
        )
        | inr free ↦ inr (
          r,
          e,
          inr (
            free,
            rw (signal_resource, e, free) refl,
            rw (signal_resource, e, free) (wake-cases name taken),
          ),
        )
      ]
]
