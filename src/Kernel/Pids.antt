-- ===== src/Kernel/Pids.antt =====
-- Where the pids of kernel/src/main.c stand: each pid that was given out is held once, by one process
-- in one queue or by the list of free pids.
use ronaldinh_os_sistemas_op.Common.{
  ℕ, ◌+◌, ◌≡◌, ap, List, [], ◌∷◌, ◌++◌, map, Bool, Option, none, some, arith, ◌==◌, some-injective,
  if◌then◌else◌, ltb, count, count-append, find, remove_first, Bool-cases, Option-cases, List-cases,
  inl, inr,
}
use ronaldinh_os_sistemas_op.Kernel.State.{Text, ready, Pcb, Kernel}
use ronaldinh_os_sistemas_op.Kernel.Queues.{
  new_pcb, get_new_pid, buscar_recursos_de_pid, crear_recursos_de_pid, create_pcb, release_pid,
  delete_pcb, is_vrr, unblocked,
}
use ronaldinh_os_sistemas_op.Kernel.Released.{Kept}

abbrev pub pids : List Pcb → List ℕ
pids = map (λ (p : Pcb). p.pid)

abbrev pub one : ℕ → ℕ → ℕ
one p q = if p == q then 1 else 0

abbrev pub at_cpu_pid : Option Pcb → ℕ → ℕ
at_cpu_pid none q = 0
at_cpu_pid (some p) q = one p.pid q

-- How often a pid is held.
abbrev pub places : Kernel → ℕ → ℕ
places k q =
    count q (pids k.queue_news)
    + count q (pids k.queue_readys)
    + count q (pids k.queue_aux)
    + count q (pids k.list_blockeds)
    + at_cpu_pid k.running q
    + count q k.free_pids

abbrev pub given : ℕ → ℕ → ℕ
given next q = if ltb q next then 1 else 0

-- Every pid below `next_pid` is held once and no other is, but for the pids in `away`, which belong to
-- processes that are being moved.
pub record Held (away : ℕ → ℕ) (k : Kernel) : Type 0 where
  pub once : (q : ℕ) → places k q + away q ≡ given k.next_pid q

abbrev pub nobody : ℕ → ℕ
nobody q = 0

pub count-pids-last :
    (q : ℕ) (ps : List Pcb) (p : Pcb)
    → count q (pids (ps ++ p ∷ [])) ≡ count q (pids ps) + one p.pid q
unfolding count
count-pids-last q [] p = omega arith
count-pids-last q (r ∷ ps) p = omega (arith, count-pids-last q ps p)

pub count-pids-remove :
    (q : ℕ) (test : Pcb → Bool) (ps : List Pcb) {p : Pcb}
    → find test ps ≡ some p
    → count q (pids (remove_first test ps)) + one p.pid q ≡ count q (pids ps)
unfolding count find remove_first
count-pids-remove q test [] e = cc
count-pids-remove q test (r ∷ ps) {p} e = elim (Bool-cases (test r)) [
  | inl hit ↦
      let same : r ≡ p = some-injective _ _ (rw (find, hit) at e) in
      rw (remove_first, hit, ← same) (omega arith)
  | inr miss ↦
      rw (remove_first, miss) (omega (arith, count-pids-remove q test ps (rw (find, miss) at e)))
]

pub count-free-last : (q p : ℕ) (ps : List ℕ) → count q (ps ++ p ∷ []) ≡ count q ps + one p q
unfolding count
count-free-last q p ps = omega (arith, count-append q ps (p ∷ []))

unblocked-Held :
    (away : ℕ → ℕ) (test : Pcb → Bool) (p : Pcb) (k : Kernel)
    → find test k.list_blockeds ≡ some p
    → Held away k
    → Held away (unblocked test p k)
unfolding unblocked
unblocked-Held away test p k e h =
    let pcb : Pcb = record p { state = ready } in
    elim (Bool-cases (is_vrr k.planner)) [
      | inl v ↦ elim (Bool-cases (ltb p.quantum k.max_quantum)) [
        | inl low ↦
            rw (unblocked, v, low)
              (record {
                once = λ q. omega (
                  arith,
                  h.once q,
                  count-pids-last q k.queue_aux pcb,
                  count-pids-remove q test k.list_blockeds e,
                );
              })
        | inr high ↦
            rw (unblocked, v, high)
              (record {
                once = λ q. omega (
                  arith,
                  h.once q,
                  count-pids-last q k.queue_readys pcb,
                  count-pids-remove q test k.list_blockeds e,
                );
              })
      ]
      | inr n ↦
          rw (unblocked, n)
            (record {
              once = λ q. omega (
                arith,
                h.once q,
                count-pids-last q k.queue_readys pcb,
                count-pids-remove q test k.list_blockeds e,
              );
            })
    ]

pub Held-Kept : (away : ℕ → ℕ) → Kept (Held away)
Held-Kept away = record {
  resources = λ rs us k h. record { once = h.once };
  unblocks = unblocked-Held away;
}

pub delete_pcb-Held :
    (pcb : Pcb) (k : Kernel) → Held (one pcb.pid) k → Held nobody (delete_pcb pcb k)
unfolding delete_pcb release_pid
delete_pcb-Held pcb k h = record {
  once = λ q. omega (arith, h.once q, count-free-last q pcb.pid k.free_pids);
}

given-suc : (n q : ℕ) → given (n + 1) q ≡ given n q + one n q
given-suc n q = ground arith

-- A new pid is free or the next one, and is taken from there.
get_new_pid-Held : (k : Kernel) → Held nobody k → Held (one (get_new_pid k).0) (get_new_pid k).1
unfolding get_new_pid count
get_new_pid-Held k h = elim (List-cases k.free_pids) [
  | inl e ↦
      rw (get_new_pid, e) (record { once = λ q. omega (arith, h.once q, given-suc k.next_pid q) })
  | inr (id, rest, e) ↦
      rw (get_new_pid, e) (record { once = λ q. omega (arith, h.once q, ap (count q) e) })
]

crear_recursos_de_pid-Held :
    (away : ℕ → ℕ) (pid : ℕ) (k : Kernel) → Held away k → Held away (crear_recursos_de_pid pid k).1
unfolding crear_recursos_de_pid
crear_recursos_de_pid-Held away pid k h =
    elim (Option-cases (buscar_recursos_de_pid pid k.resources_pcbs)) [
      | inl e ↦ rw (crear_recursos_de_pid, e) (record { once = h.once })
      | inr (r, e) ↦ rw (crear_recursos_de_pid, e) h
    ]

pub create_pcb-Held : (path : Text) (k : Kernel) → Held nobody k → Held nobody (create_pcb path k).1
unfolding create_pcb new_pcb
create_pcb-Held path k h =
    let k₁ = (get_new_pid k).1 in
    let pid = (get_new_pid k).0 in
    let h₁ = get_new_pid-Held k h in
    let c =
      crear_recursos_de_pid-Held nobody pid
        (record k₁ {
          pcb_to_memory = k₁.pcb_to_memory ++ record { pid = pid; path = path } ∷ [];
          queue_news = k₁.queue_news ++ new_pcb pid ∷ [];
          news_avaiable = k₁.news_avaiable + 1;
        })
        (record {
          once = λ q. omega (arith, h₁.once q, count-pids-last q k₁.queue_news (new_pcb pid));
        }) in
    record { once = c.once }
