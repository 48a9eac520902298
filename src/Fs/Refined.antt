-- ===== src/Fs/Refined.antt =====
-- The operations of entradasalida/src/utils_io.c do what a directory of names and sizes promises.
use ronaldinh_os_sistemas_op.Fs.Sized.{
  Refines, perform-pointwise, fs_truncate-Refines, placed-Refines,
}
use ronaldinh_os_sistemas_op.Common.{
  ℕ, ◌≡◌, refl, sym, ap, ◌∙◌, List, Option, none, some, find, Option-cases, inl, inr,
}
use ronaldinh_os_sistemas_op.Common.Bits.{Bitarray}
use ronaldinh_os_sistemas_op.Kernel.State.{Text}
use ronaldinh_os_sistemas_op.Fs.Files.{
  Metadata, no_block, FileSystem, has_name, find_metadata, fs_create, fs_delete,
}
use ronaldinh_os_sistemas_op.Fs.Life.{
  Operates, creates, deletes, truncates, places, Leads, unchanged, followed_by,
}
use ronaldinh_os_sistemas_op.Fs.Directory.{
  size_of, sizes, Command, makes, erases, sets_size, made, perform, text_eq-cases, Distinct,
  sizes-absent, sizes-append, sizes-remove_first,
}
use ronaldinh_os_sistemas_op.Fs.Names.{Distinct-append, Distinct-remove_first}

-- A file that is there needs not be made, and one that is not there not be erased.
sizes-present :
    (ms : List Metadata) (name q : Text) {m : Metadata}
    → find (has_name name) ms ≡ some m
    → sizes ms q ≡ perform (makes name) (sizes ms) q
unfolding perform sizes size_of
sizes-present ms name q {m = m} h = elim (text_eq-cases name q) [
  | inl (p, t) ↦
      let here : find (has_name q) ms ≡ some m = rw p at h in
      rw t (ap size_of here ∙ sym (ap (λ r. made (size_of r)) here))
  | inr (n, t) ↦ rw t refl
]

sizes-missing :
    (ms : List Metadata) (name q : Text)
    → find (has_name name) ms ≡ none
    → sizes ms q ≡ perform (erases name) (sizes ms) q
unfolding perform
sizes-missing ms name q h = elim (text_eq-cases name q) [
  | inl (p, t) ↦ rw t (sizes-absent ms q (rw p at h))
  | inr (n, t) ↦ rw t refl
]

module _ {B : Type 0} ⦃ba : Bitarray B⦄ where
  fs_create-Refines :
      (name : Text) (pid : ℕ) (fs : FileSystem B)
      → Distinct fs.metadata
      → Refines fs.metadata (fs_create name pid fs).metadata (makes name)
  unfolding fs_create find_metadata
  fs_create-Refines name pid fs d = elim (Option-cases (find_metadata name fs)) [
    | inr (m, e) ↦
        rw (fs_create, e) (record { does = λ q. sizes-present fs.metadata name q e; distinct = d })
    | inl e ↦
        let fresh : Metadata = record { file_name = name; block = no_block; size = 0 } in
        rw (fs_create, e)
          (record {
            does = λ q. sizes-append fs.metadata fresh q refl;
            distinct = Distinct-append fs.metadata fresh e d;
          })
  ]

  fs_delete-Refines :
      (name : Text) (fs : FileSystem B)
      → Distinct fs.metadata
      → Refines fs.metadata (fs_delete name fs).metadata (erases name)
  unfolding fs_delete find_metadata
  fs_delete-Refines name fs d = elim (Option-cases (find_metadata name fs)) [
    | inl e ↦
        rw (fs_delete, e) (record { does = λ q. sizes-missing fs.metadata name q e; distinct = d })
    | inr (m, e) ↦
        rw (fs_delete, e)
          (record {
            does = λ q. sizes-remove_first name fs.metadata q d;
            distinct = Distinct-remove_first name fs.metadata d;
          })
  ]

  -- The command of an operation, and the commands of several, the last one first.
  unfoldable pub command_of :
      {sort : List Metadata → List Metadata} {fs fs' : FileSystem B}
      → Operates sort fs fs'
      → Command
  command_of (creates name pid fs) = makes name
  command_of (deletes name fs) = erases name
  command_of (truncates name new_size m found small can runs) = sets_size name new_size
  command_of (places name new_size place m found small can runs) = sets_size name new_size

  unfoldable pub directory_behind :
      {sort : List Metadata → List Metadata} {fs fs' : FileSystem B}
      → Leads sort fs fs'
      → (Text → Option ℕ)
      → Text
      → Option ℕ
  unfolding command_of perform
  directory_behind unchanged d = d
  directory_behind (followed_by before last) d =
      perform (command_of last) (directory_behind before d)

  operates-Refines :
      (sort : List Metadata → List Metadata) {fs fs' : FileSystem B} (o : Operates sort fs fs')
      → Distinct fs.metadata
      → Refines fs.metadata fs'.metadata (command_of o)
  unfolding command_of
  operates-Refines sort (creates name pid fs) d = fs_create-Refines name pid fs d
  operates-Refines sort (deletes name fs) d = fs_delete-Refines name fs d
  operates-Refines sort {fs' = fs'} (truncates name new_size m {fs = fs} found small can runs) d =
      fs_truncate-Refines sort name new_size fs fs' m found small can.0 can.1 runs d
  operates-Refines sort {fs' = fs'} (places name new_size place m {fs = fs} found small can runs)
        d =
      placed-Refines sort name new_size place fs fs' m found small can runs d

  -- Where names differ, any creations, deletions and truncations, each with room as in the life of a
  -- consistent file system, do to the sizes of the files what a directory promises: a file that is
  -- created is there, empty unless it was there before; one that is deleted is not; one that is
  -- truncated has the new size; and every other file is as it was.
  pub Leads-Refines :
      (sort : List Metadata → List Metadata) {fs fs' : FileSystem B} (l : Leads sort fs fs')
      → Distinct fs.metadata
      → ((q : Text) → sizes fs'.metadata q ≡ directory_behind l (sizes fs.metadata) q)
        × Distinct fs'.metadata
  unfolding directory_behind
  Leads-Refines sort unchanged d = (λ q. refl, d)
  Leads-Refines sort {fs = fs} (followed_by {a = a} before last) d =
      let (same, distinct) = Leads-Refines sort before d in
      let step = operates-Refines sort last distinct in
      (
        λ q.
            step.does q
            ∙ perform-pointwise (command_of last) (sizes a.metadata)
                (directory_behind before (sizes fs.metadata)) q (same q),
        step.distinct,
      )
