-- ===== src/Memory/Server.antt =====
-- The requests that the memory serves: `operate` and `getInstruction` of memoria/src/memory.c, and
-- `writeInPagingMemory` and `readInPagingMemory` of memoria/src/paginacion.c.
use ronaldinh_os_sistemas_op.Common.{
  ℕ, ◌+◌, ◌*◌, ◌%◌, ◌^◌, List, [], ◌∷◌, ◌++◌, Option, none, some, ◌>>=◌, ◌==◌, if◌then◌else◌,
  length, take, find, get_elem?, peek, Ram, u32_mod,
}
use ronaldinh_os_sistemas_op.Common.Bits.{Bitarray}
use ronaldinh_os_sistemas_op.Wire.Buffer.{c_string}
use ronaldinh_os_sistemas_op.Wire.Requests.{
  InstReqToMemory, NewProcess, SolicitudFrameMemoria, ResizeParams, MoveInParams, MoveOutParams,
  CopyStringParams,
}
use ronaldinh_os_sistemas_op.Wire.Interfaces.{IoStdinReadWriteMemory, IoStdoutWrite}
use ronaldinh_os_sistemas_op.Wire.FsMessages.{IoFsWriteParams, IoFsReadToMemoryParams}
use ronaldinh_os_sistemas_op.Memory.State.{Memory, get_page_table}
use ronaldinh_os_sistemas_op.Memory.InstructionFile.{appetite_for_instruction}
use ronaldinh_os_sistemas_op.Memory.Resize.{resize}
use ronaldinh_os_sistemas_op.Memory.Access.{
  get_frame, ocupy_physical_address, leer_a_partir_de_direccion,
}

-- The pages and the main memory, the processes that came, and the lines of `instructions`; `none` is a
-- null pointer, or an array that was freed.
pub record Server (B : Type 0) : Type 0 where
  pub memory : Memory B
  pub processes : List NewProcess
  pub instructions : Option (List (List ℕ))

-- What is around: the bytes of the file at a path, if it is there, those that lie behind a buffer of the
-- program, and those behind the stars of `resize`.
pub record Around : Type 0 where
  pub file_at : List ℕ → Option (List ℕ)
  pub behind : Ram
  pub beyond : List ℕ

-- The requests, by their operation code, with what they hold.
pub data ServerRequest : Type 0 where
  new_process : NewProcess → ServerRequest
  request_instruction : InstReqToMemory → ServerRequest
  asks_page_size : ServerRequest
  resizes : ResizeParams → ServerRequest
  stdin_writes : IoStdinReadWriteMemory → ServerRequest
  stdout_reads : IoStdoutWrite → ServerRequest
  fs_writes : IoFsWriteParams → ServerRequest
  fs_reads : IoFsReadToMemoryParams → ServerRequest
  asks_frame : SolicitudFrameMemoria → ServerRequest
  moves_in : MoveInParams → ServerRequest
  moves_out : MoveOutParams → ServerRequest
  copies : CopyStringParams → ServerRequest

-- What is sent back: a number, a text, some bytes behind their number, or nothing.
pub data Reply : Type 0 where
  number : ℕ → Reply
  text : List ℕ → Reply
  bytes : ℕ → List ℕ → Reply
  silence : Reply

-- `cadenaANumero`, of a text of at most four bytes.
unfoldable pub cadena_a_numero : List ℕ → ℕ
cadena_a_numero [] = 0
cadena_a_numero (c ∷ cs) = (c * 256 ^ length cs + cadena_a_numero cs) % u32_mod

-- So many bytes from a text on, as they lie in memory behind it too.
unfoldable pub from_buffer : Ram → ℕ → List ℕ → List ℕ
from_buffer behind size str = take size (str ++ peek behind 0 size)

module _ {B : Type 0} where
  -- `writeInPagingMemory`: without a table for the pid nothing is written.
  unfoldable pub write_in_paging_memory : List ℕ → ℕ → ℕ → Memory B → Option (Memory B)
  unfolding get_page_table ocupy_physical_address
  write_in_paging_memory algo pid physical_address m = elim (get_page_table pid m.tables) [
    | none ↦ some m
    | some t ↦ ocupy_physical_address algo physical_address pid m
  ]

  -- `readInPagingMemory`; `some none` is a null pointer.
  unfoldable pub read_in_paging_memory : ℕ → ℕ → ℕ → Memory B → Option (Option (List ℕ))
  unfolding get_page_table leer_a_partir_de_direccion
  read_in_paging_memory pid op_size physical_address m = elim (get_page_table pid m.tables) [
    | none ↦ some none
    | some t ↦
        leer_a_partir_de_direccion pid op_size physical_address m >>= λ read. some (some read)
  ]

  abbrev pub with_memory : Memory B → Server B → Server B
  with_memory m s = record s { memory = m }

  -- A read whose result is used as a text.
  unfoldable pub read_text : ℕ → ℕ → ℕ → Memory B → Option (List ℕ)
  unfolding read_in_paging_memory c_string
  read_text pid op_size physical_address m =
      read_in_paging_memory pid op_size physical_address m >>= λ read.
      read >>= λ str. some (c_string str)

  -- PROCESSTOMEMORY.
  unfoldable pub upload : Around → NewProcess → Server B → Server B
  unfolding find appetite_for_instruction
  upload around process s =
      let known = find (λ (p : NewProcess). p.pid == process.pid) s.processes in
      record s {
        processes = elim known [ none ↦ s.processes ++ process ∷ [] | some p ↦ s.processes ];
        instructions = appetite_for_instruction (around.file_at process.path);
      }

  -- `getInstruction`, and the answer to it: the null pointer behind the last line frees them all, and
  -- nothing is sent.
  unfoldable pub line_at : InstReqToMemory → List (List ℕ) → Server B → Option (Reply × Server B)
  line_at req lines s = elim (get_elem? lines req.program_counter) [
    | some line ↦ some (text line, s)
    | none ↦
        if req.program_counter == length lines
        then some (silence, record s { instructions = none })
        else none
  ]

  -- REQUESTINSTRUCTIONS.
  unfoldable pub give_instruction : InstReqToMemory → Server B → Option (Reply × Server B)
  unfolding line_at
  give_instruction req s = s.instructions >>= λ lines. line_at req lines s

  -- COPY_STRING: no more than the text that was read.
  unfoldable pub copy_in_memory : CopyStringParams → Memory B → Option (Memory B)
  unfolding read_text write_in_paging_memory
  copy_in_memory p m = read_text p.pid p.tam p.df_orig m >>= λ read.
      write_in_paging_memory (take p.tam read) p.pid p.df_dest m

module _ {B : Type 0} ⦃ba : Bitarray B⦄ where
  -- A round of `operate`, by the operation code.
  unfoldable pub serve : Around → ServerRequest → Server B → Option (Reply × Server B)
  unfolding upload give_instruction resize write_in_paging_memory read_in_paging_memory read_text
      get_frame copy_in_memory cadena_a_numero from_buffer
  serve around (new_process p) s = some (silence, upload around p s)
  serve around (request_instruction p) s = give_instruction p s
  serve around asks_page_size s = some (number s.memory.page_length, s)
  serve around (resizes p) s =
      resize around.beyond p.pid p.tamanio_proceso s.memory >>= λ (answer, m).
      some (number answer, with_memory m s)
  serve around (stdin_writes p) s =
      write_in_paging_memory p.text_to_memory p.pid p.physical_adress s.memory >>= λ m.
      some (number 1, with_memory m s)
  serve around (stdout_reads p) s =
      read_in_paging_memory p.pid p.length_to_read_or_write p.physical_adress s.memory >>= λ read.
      elim read [
        | none ↦ some (bytes p.length_to_read_or_write [], s)
        | some str ↦ some (bytes p.length_to_read_or_write str, s)
      ]
  serve around (fs_writes p) s =
      read_text p.pid p.length_to_write p.physical_adress s.memory >>= λ str.
      some (bytes (length str + 1) (str ++ 0 ∷ []), s)
  serve around (fs_reads p) s =
      write_in_paging_memory (from_buffer around.behind p.length_to_read (p.word ++ 0 ∷ [])) p.pid
        p.physical_adress s.memory
      >>= λ m. some (silence, with_memory m s)
  serve around (asks_frame p) s =
      get_frame p.pid p.paginas s.memory >>= λ frame. some (number frame, s)
  serve around (moves_in p) s =
      read_text p.pid p.length_to_read p.physical_adress s.memory >>= λ str.
      some (number (cadena_a_numero str), s)
  serve around (moves_out p) s =
      write_in_paging_memory
        (from_buffer around.behind p.length_to_write (p.data_registro % 256 ∷ [])) p.pid
        p.physical_adress s.memory
      >>= λ m. some (silence, with_memory m s)
  serve around (copies p) s = copy_in_memory p s.memory >>= λ m. some (silence, with_memory m s)
