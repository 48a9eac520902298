-- ===== src/Cpu/Written.antt =====
-- What the instructions of cpu/src/operations.c that ask for an interface keep of a process.
use ronaldinh_os_sistemas_op.Common.{
  ℕ, inl, inr, [], ◌∷◌, ◌++◌, Option, ◌>>=◌, length, ltb, OnSome, >>=-OnSome, Bool-cases,
}
use ronaldinh_os_sistemas_op.Utils.Words.{get_next_word}
use ronaldinh_os_sistemas_op.Utils.Numbers.{int_to_char}
use ronaldinh_os_sistemas_op.Kernel.State.{Text, text_eq}
use ronaldinh_os_sistemas_op.Wire.ControlBlock.{ControlBlock}
use ronaldinh_os_sistemas_op.Cpu.Registers.{get_register}
use ronaldinh_os_sistemas_op.Cpu.Moves.{Surroundings, Cpu, registers_of, translate}
use ronaldinh_os_sistemas_op.Cpu.Sound.{Sound, translate-Sound}
use ronaldinh_os_sistemas_op.Cpu.Names.{
  io_gen_sleep_text, io_stdin_read_text, io_stdout_write_text, io_fs_create_text, io_fs_delete_text,
  io_fs_truncate_text, io_fs_write_text, io_fs_read_text, exit_text, io_text,
}
use ronaldinh_os_sistemas_op.Cpu.IoTexts.{
  Outside, next_register, in_buffer, gen_sleep_io, std_io, fs_truncate_io, fs_io,
}
use ronaldinh_os_sistemas_op.Cpu.Instructions.{execute_io}
use ronaldinh_os_sistemas_op.Cpu.Carried.{
  SoundExecuted, reads-Sound, with_context-Sound, leaves-Sound, if-Sound,
}

module _ (s : Surroundings) (b : ControlBlock) where
  abbrev SoundText : Option (Text × Cpu) → Type 0
  SoundText r = OnSome (λ (info, c). Sound s.entries b c) r

  -- What is read of an instruction before a text that is written for the kernel.
  reads-SoundText {ℓ} :
      {A : Type ℓ} (m : Option A) (f : A → Option (Text × Cpu))
      → ((a : A) → SoundText (f a))
      → SoundText (m >>= f)
  reads-SoundText m f h = reads-Sound s b (λ (info, c). Sound s.entries b c) m f h

  in_buffer-SoundText :
      (size : ℕ) (text : Text) (c : Cpu) → Sound s.entries b c → SoundText (in_buffer size text c)
  unfolding in_buffer
  in_buffer-SoundText size text c h = elim (Bool-cases (ltb (length text) size)) [
    | inl e ↦ rw (in_buffer, e) h
    | inr e ↦ rw (in_buffer, e) tt
  ]

  gen_sleep_io-Sound :
      (operation : Text) (offset : ℕ) (c : Cpu)
      → Sound s.entries b c
      → SoundText (gen_sleep_io operation offset c)
  unfolding gen_sleep_io
  gen_sleep_io-Sound operation offset c h =
      reads-SoundText (get_next_word operation offset) _ (λ (io_name, next).
        reads-SoundText (get_next_word operation next) _ (λ (time_to_sleep, last).
          in_buffer-SoundText 50 (io_gen_sleep_text ++ 32 ∷ io_name ++ 32 ∷ time_to_sleep) c h))

  translates-SoundText :
      (logical : ℕ) (c : Cpu) (f : ℕ × Cpu → Option (Text × Cpu))
      → Sound s.entries b c
      → ((address : ℕ) (c' : Cpu) → Sound s.entries b c' → SoundText (f (address, c')))
      → SoundText (translate s logical c >>= f)
  translates-SoundText logical c f h k =
      >>=-OnSome (λ (a, c'). Sound s.entries b c') (λ (info, c'). Sound s.entries b c')
        (translate s logical c) f (translate-Sound s b logical c h)
        (λ (address, c') h'. k address c' h')

  std_io-Sound :
      (name operation : Text) (offset : ℕ) (c : Cpu)
      → Sound s.entries b c
      → SoundText (std_io s name operation offset c)
  unfolding std_io
  std_io-Sound name operation offset c h =
      reads-SoundText (get_next_word operation offset) _ (λ (interface_name, n1).
        reads-SoundText (next_register operation n1) _ (λ (register_address, n2).
          reads-SoundText (next_register operation n2) _ (λ (register_length, n3).
            translates-SoundText (get_register register_address (registers_of c)) c _ h
              (λ address c' h'. in_buffer-SoundText _ _ c' h'))))

  fs_truncate_io-Sound :
      (operation : Text) (offset : ℕ) (c : Cpu)
      → Sound s.entries b c
      → SoundText (fs_truncate_io operation offset c)
  unfolding fs_truncate_io
  fs_truncate_io-Sound operation offset c h =
      reads-SoundText (get_next_word operation offset) _ (λ (io_name, n1).
        reads-SoundText (get_next_word operation n1) _ (λ (file_name, n2).
          reads-SoundText (next_register operation n2) _ (λ (r, n3).
            in_buffer-SoundText 50
              (io_fs_truncate_text
                ++ 32 ∷ io_name
                ++ 32 ∷ file_name
                ++ 32 ∷ int_to_char (get_register r (registers_of c)))
              c h)))

  fs_io-Sound :
      (o : Outside) (name operation : Text) (offset : ℕ) (c : Cpu)
      → Sound s.entries b c
      → SoundText (fs_io s o name operation offset c)
  unfolding fs_io
  fs_io-Sound o name operation offset c h =
      reads-SoundText (get_next_word operation offset) _ (λ (interface_name, n1).
        reads-SoundText (get_next_word operation n1) _ (λ (file_name, n2).
          reads-SoundText (next_register operation n2) _ (λ (register_address, n3).
            reads-SoundText (next_register operation n3) _ (λ (register_length, n4).
              reads-SoundText (next_register operation n4) _ (λ (register_pointer, n5).
                translates-SoundText (get_register register_address (registers_of c)) c _ h
                  (λ address c' h'. in_buffer-SoundText _ _ c' h'))))))

  pub execute_io-Sound :
      (o : Outside) (name operation : Text) (offset : ℕ) (c : Cpu)
      → Sound s.entries b c
      → SoundExecuted s b (execute_io s o name operation offset c)
  unfolding execute_io
  execute_io-Sound o name operation offset c h =
      let passed = with_context-Sound s b io_text operation c h in
      if-Sound s b (text_eq name io_gen_sleep_text) _ _
        (leaves-Sound s b _ (gen_sleep_io-Sound operation offset c h))
        (if-Sound s b (text_eq name io_stdin_read_text) _ _
          (leaves-Sound s b _ (std_io-Sound io_stdin_read_text operation offset c h))
          (if-Sound s b (text_eq name io_stdout_write_text) _ _
            (leaves-Sound s b _ (std_io-Sound io_stdout_write_text operation offset c h))
            (if-Sound s b (text_eq name io_fs_create_text) _ _ passed (
              if-Sound s b (text_eq name io_fs_delete_text) _ _ passed (
                if-Sound s b (text_eq name io_fs_truncate_text) _ _
                  (leaves-Sound s b _ (fs_truncate_io-Sound operation offset c h))
                  (if-Sound s b (text_eq name io_fs_write_text) _ _
                    (leaves-Sound s b _ (fs_io-Sound o io_fs_write_text operation offset c h))
                    (if-Sound s b (text_eq name io_fs_read_text) _ _
                      (leaves-Sound s b _ (fs_io-Sound o io_fs_read_text operation offset c h))
                      (if-Sound s b (text_eq name exit_text) _ _
                        (with_context-Sound s b exit_text [] c h) h))))))))
