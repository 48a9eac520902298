-- ===== src/Memory/Tables.antt =====
-- Looking up and updating page tables, in memoria/src/paginacion.c.
use ronaldinh_os_sistemas_op.Common.{
  ℕ, ◌+◌, ◌≡◌, refl, List, [], ◌∷◌, ◌++◌, Option, none, some, arith, false, ◌==◌,
}
use ronaldinh_os_sistemas_op.Memory.State.{PageTable, get_page_table, update_table}

abbrev pub add_ids : ℕ → PageTable → PageTable
add_ids n u = record u { last_used_page_id = u.last_used_page_id + n }

-- Two updates of one process are one.
pub update_table-update_table :
    (pid : ℕ) (f g : PageTable → PageTable) (ts : List PageTable)
    → ((t : PageTable) → (f t).pid ≡ t.pid)
    → update_table pid g (update_table pid f ts) ≡ update_table pid (λ t. g (f t)) ts
unfolding update_table
update_table-update_table pid f g [] h = refl
update_table-update_table pid f g (t ∷ ts) h =
    ground (arith, h t, update_table-update_table pid f g ts h)

pub update_table_absent :
    (pid : ℕ) (f : PageTable → PageTable) (ts : List PageTable)
    → get_page_table pid ts ≡ none
    → update_table pid f ts ≡ ts
unfolding update_table get_page_table
update_table_absent pid f [] e = refl
update_table_absent pid f (t ∷ ts) e = ground (arith, update_table_absent pid f ts)

-- Two numbers of ids, one behind the other.
pub add_ids-add_ids :
    (pid a b : ℕ) (ts : List PageTable)
    → update_table pid (λ t. add_ids b (add_ids a t)) ts ≡ update_table pid (add_ids (a + b)) ts
unfolding update_table
add_ids-add_ids pid a b [] = refl
add_ids-add_ids pid a b (t ∷ ts) = ground (arith, add_ids-add_ids pid a b ts)

abbrev pub map_table : (PageTable → PageTable) → Option PageTable → Option PageTable
map_table f none = none
map_table f (some t) = some (f t)

-- An update that keeps the process is what a lookup of that process finds.
pub get_page_table-update_table :
    (pid : ℕ) (f : PageTable → PageTable) (ts : List PageTable)
    → ((t : PageTable) → (f t).pid ≡ t.pid)
    → get_page_table pid (update_table pid f ts) ≡ map_table f (get_page_table pid ts)
unfolding update_table get_page_table
get_page_table-update_table pid f [] h = refl
get_page_table-update_table pid f (t ∷ ts) h =
    ground (arith, h t, get_page_table-update_table pid f ts h)

-- A lookup of another process finds what it found before.
pub get_page_table-update_ne :
    (pid q : ℕ) (f : PageTable → PageTable) (ts : List PageTable)
    → ((t : PageTable) → t.pid ≡ pid → (f t).pid ≡ pid)
    → (pid == q) ≡ false
    → get_page_table q (update_table pid f ts) ≡ get_page_table q ts
unfolding update_table get_page_table
get_page_table-update_ne pid q f [] h ne = refl
get_page_table-update_ne pid q f (t ∷ ts) h ne =
    ground (arith, h t, get_page_table-update_ne pid q f ts h)

pub update_table-zero : (pid : ℕ) (ts : List PageTable) → update_table pid (add_ids 0) ts ≡ ts
unfolding update_table
update_table-zero pid [] = refl
update_table-zero pid (t ∷ ts) = ground (arith, update_table-zero pid ts)

pub get_page_table-pid :
    (pid : ℕ) (ts : List PageTable) (t : PageTable) → get_page_table pid ts ≡ some t → t.pid ≡ pid
unfolding get_page_table
get_page_table-pid pid [] t e = cc
get_page_table-pid pid (u ∷ ts) t e = ground (arith, get_page_table-pid pid ts t)

-- An update whose result belongs to the process is what a lookup of the process finds.
pub get_page_table-update_self :
    (pid : ℕ) (f : PageTable → PageTable) (ts : List PageTable) (t : PageTable)
    → get_page_table pid ts ≡ some t
    → (f t).pid ≡ pid
    → get_page_table pid (update_table pid f ts) ≡ some (f t)
unfolding update_table get_page_table
get_page_table-update_self pid f [] t e h = cc
get_page_table-update_self pid f (u ∷ ts) t e h =
    ground (arith, get_page_table-update_self pid f ts t)

pub get_page_table-append :
    (pid : ℕ) (ts : List PageTable) (new : PageTable)
    → get_page_table pid ts ≡ none
    → new.pid ≡ pid
    → get_page_table pid (ts ++ new ∷ []) ≡ some new
unfolding get_page_table
get_page_table-append pid [] new e h = ground arith
get_page_table-append pid (t ∷ ts) new e h = ground (arith, get_page_table-append pid ts new)

pub get_page_table-append_ne :
    (pid : ℕ) (ts : List PageTable) (new : PageTable)
    → (new.pid == pid) ≡ false
    → get_page_table pid (ts ++ new ∷ []) ≡ get_page_table pid ts
unfolding get_page_table
get_page_table-append_ne pid [] new h = ground arith
get_page_table-append_ne pid (t ∷ ts) new h = ground (arith, get_page_table-append_ne pid ts new)
