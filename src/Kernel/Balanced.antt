-- ===== src/Kernel/Balanced.antt =====
-- The semaphores of kernel/src/main.c count what stands in the queues: the invariant, and that the
-- moves of a process keep it.
use ronaldinh_os_sistemas_op.Common.{
  ℕ, ◌+◌, ◌≡◌, List, [], ◌∷◌, ◌++◌, Bool, false, Option, none, some, arith, ltb, length,
  length-append, find, remove_first, Bool-cases, Option-cases, List-cases, inl, inr,
}
use ronaldinh_os_sistemas_op.Kernel.State.{
  Admission, waits_for_news, waits_for_place, waits_for_planner, Dispatch, waits_to_plan,
  waits_for_cpu, waits_for_readys, Text, ready, Pcb, Resource, ResourcesOfPid, Kernel,
}
use ronaldinh_os_sistemas_op.Kernel.Released.{Kept}
use ronaldinh_os_sistemas_op.Kernel.Queues.{
  create_pcb, new_pcb, buscar_recursos_de_pid, get_new_pid, crear_recursos_de_pid, delete_pcb,
  release_pid, is_vrr, unblocked,
}

abbrev pub at_cpu : Option Pcb → ℕ
at_cpu none = 0
at_cpu (some p) = 1

-- What the planner threads hold of the semaphores: a new process and a place, and the CPU.
abbrev pub news_taken : Admission → ℕ
news_taken waits_for_news = 0
news_taken waits_for_place = 1
news_taken waits_for_planner = 1

abbrev pub place_taken : Admission → ℕ
place_taken waits_for_news = 0
place_taken waits_for_place = 0
place_taken waits_for_planner = 1

abbrev pub cpu_taken : Dispatch → ℕ
cpu_taken waits_to_plan = 0
cpu_taken waits_for_cpu = 0
cpu_taken waits_for_readys = 1

-- The processes that take part in the multiprogramming.
abbrev pub admitted : Kernel → ℕ
admitted k = length k.queue_readys + length k.queue_aux + length k.list_blockeds + at_cpu k.running

-- The counts of the semaphores, given the queues and what the planner threads hold, and the degree of multiprogramming, of which
-- `missing` places belong to processes that are being deleted.
pub record Counted (missing : ℕ) (k : Kernel) : Type 0 where
  pub news : k.news_avaiable + news_taken k.admission ≡ length k.queue_news
  pub readys : k.readys_avaiable ≡ length k.queue_readys + length k.queue_aux
  pub cpu : k.running_process + cpu_taken k.dispatch + at_cpu k.running ≡ 1
  pub slots : k.readys_max + place_taken k.admission + admitted k + missing ≡ k.grado
  pub priority : is_vrr k.planner ≡ false → k.queue_aux ≡ []

abbrev pub Balanced : Kernel → Type 0
Balanced k = Counted 0 k

-- The resources have no part in it.
pub Balanced-resources :
    {n : ℕ} {k : Kernel} (rs : List Resource) (us : List ResourcesOfPid)
    → Counted n k
    → Counted n (record k { recursos = rs; resources_pcbs = us })
Balanced-resources rs us b = record {
  news = b.news;
  readys = b.readys;
  cpu = b.cpu;
  slots = b.slots;
  priority = b.priority;
}

pub Balanced-planner :
    {n : ℕ} {k : Kernel} (can : ℕ) (on : Bool)
    → Counted n k
    → Counted n (record k { can_plan = can; planner_is_running = on })
Balanced-planner can on b = record {
  news = b.news;
  readys = b.readys;
  cpu = b.cpu;
  slots = b.slots;
  priority = b.priority;
}

pub length-remove_first :
    (test : Pcb → Bool) (ps : List Pcb) {p : Pcb}
    → find test ps ≡ some p
    → length (remove_first test ps) + 1 ≡ length ps
unfolding find remove_first
length-remove_first test [] e = cc
length-remove_first test (q ∷ ps) {p} e = elim (Bool-cases (test q)) [
  | inl hit ↦ rw (remove_first, hit) (omega arith)
  | inr miss ↦
      rw (remove_first, miss) (omega (arith, length-remove_first test ps (rw (find, miss) at e)))
]

one_more : (ps : List Pcb) (p : Pcb) → length (ps ++ p ∷ []) ≡ length ps + 1
one_more ps p = length-append ps (p ∷ [])

-- Unblocking a blocked process keeps the balance.
pub unblocked-Balanced :
    (test : Pcb → Bool) {n : ℕ} {k : Kernel} (p : Pcb)
    → find test k.list_blockeds ≡ some p
    → Counted n k
    → Counted n (unblocked test p k)
unfolding unblocked
unblocked-Balanced test {k} p e b =
    let pcb : Pcb = record p { state = ready } in
    let less = length-remove_first test k.list_blockeds e in
    let in_aux = one_more k.queue_aux pcb in
    let in_readys = one_more k.queue_readys pcb in
    elim (Bool-cases (is_vrr k.planner)) [
      | inl v ↦ elim (Bool-cases (ltb p.quantum k.max_quantum)) [
        | inl low ↦
            rw (unblocked, v, low)
              (record {
                news = b.news;
                readys = omega (arith, b.readys, in_aux);
                cpu = b.cpu;
                slots = omega (arith, b.slots, in_aux, less);
                priority = λ n. cc;
              })
        | inr high ↦
            rw (unblocked, v, high)
              (record {
                news = b.news;
                readys = omega (arith, b.readys, in_readys);
                cpu = b.cpu;
                slots = omega (arith, b.slots, in_readys, less);
                priority = b.priority;
              })
      ]
      | inr n ↦
          rw (unblocked, n)
            (record {
              news = b.news;
              readys = omega (arith, b.readys, in_readys);
              cpu = b.cpu;
              slots = omega (arith, b.slots, in_readys, less);
              priority = b.priority;
            })
    ]

get_new_pid-Balanced : {n : ℕ} {k : Kernel} → Counted n k → Counted n (get_new_pid k).1
unfolding get_new_pid
get_new_pid-Balanced {k} b = elim (List-cases k.free_pids) [
  | inl e ↦
      rw (get_new_pid, e)
        (record {
          news = b.news;
          readys = b.readys;
          cpu = b.cpu;
          slots = b.slots;
          priority = b.priority;
        })
  | inr (id, rest, e) ↦
      rw (get_new_pid, e)
        (record {
          news = b.news;
          readys = b.readys;
          cpu = b.cpu;
          slots = b.slots;
          priority = b.priority;
        })
]

crear_recursos_de_pid-Balanced :
    (pid : ℕ) {n : ℕ} {k : Kernel} → Counted n k → Counted n (crear_recursos_de_pid pid k).1
unfolding crear_recursos_de_pid
crear_recursos_de_pid-Balanced pid {k} b =
    elim (Option-cases (buscar_recursos_de_pid pid k.resources_pcbs)) [
      | inl e ↦ rw (crear_recursos_de_pid, e) (Balanced-resources _ _ b)
      | inr (r, e) ↦ rw (crear_recursos_de_pid, e) b
    ]

pub create_pcb-Balanced :
    (path : Text) {n : ℕ} {k : Kernel} → Counted n k → Counted n (create_pcb path k).1
unfolding create_pcb
create_pcb-Balanced path {k} b =
    let b₁ = get_new_pid-Balanced b in
    let pcb = new_pcb (get_new_pid k).0 in
    Balanced-resources _ _ (
      crear_recursos_de_pid-Balanced (get_new_pid k).0 (record {
        news = omega (arith, b₁.news, one_more (get_new_pid k).1.queue_news pcb);
        readys = b₁.readys;
        cpu = b₁.cpu;
        slots = b₁.slots;
        priority = b₁.priority;
      }))

-- The deletion of a process gives its place back.
pub delete_pcb-Counted :
    (pcb : Pcb) {n : ℕ} {k : Kernel} → Counted (n + 1) k → Counted n (delete_pcb pcb k)
unfolding delete_pcb release_pid
delete_pcb-Counted pcb b = record {
  news = b.news;
  readys = b.readys;
  cpu = b.cpu;
  slots = omega (arith, b.slots);
  priority = b.priority;
}

pub Counted-Kept : (n : ℕ) → Kept (Counted n)
Counted-Kept n = record {
  resources = λ rs us k b. Balanced-resources rs us b;
  unblocks = λ test p k e b. unblocked-Balanced test p e b;
}
