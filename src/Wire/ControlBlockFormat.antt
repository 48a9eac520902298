-- ===== src/Wire/ControlBlockFormat.antt =====
-- The format of a process control block.
use ronaldinh_os_sistemas_op.Common.{
  ℕ, ◌≤◌, ◌≡◌, refl, sym, ap, ◌∙◌, ◌++◌, List, [], ◌∷◌, Option, some, arith, ◌>>=◌, >>=-congruent,
  >>=-split, drop, All,
}
use ronaldinh_os_sistemas_op.Cpu.Registers.{Registers}
use ronaldinh_os_sistemas_op.Wire.OpCodes.{pcb_op}
use ronaldinh_os_sistemas_op.Wire.Buffer.{Buffer, word_bytes, buffer_add_uint32}
use ronaldinh_os_sistemas_op.Wire.Fields.{
  Field, word, byte, text, IsField, field_bytes, add_field, add_fields, encode, field_size,
  fields_size, read-word, read-byte, read-text,
}
use ronaldinh_os_sistemas_op.Wire.Format.{Format}
use ronaldinh_os_sistemas_op.Wire.ControlBlock.{
  ControlBlock, pcb_stream_size, buffer_add_cpu_register, buffer_read_cpu_register,
  buffer_add_context_switch, buffer_read_context_switch, pcb_serialize, pcb_deserialize,
}

unfoldable pub register_fields : Registers → List Field
register_fields r =
    word r.pc_register
    ∷ byte r.ax_register
    ∷ byte r.bx_register
    ∷ byte r.cx_register
    ∷ byte r.dx_register
    ∷ word r.eax_register
    ∷ word r.ebx_register
    ∷ word r.ecx_register
    ∷ word r.edx_register
    ∷ word r.si_register
    ∷ word r.di_register
    ∷ []

unfoldable pub pcb_fields : ControlBlock → List Field
unfolding register_fields
pcb_fields p =
    word p.pid
    ∷ word p.quantum
    ∷ (register_fields p.cpu_registers
        ++ (word p.state ∷ text p.context.reason ∷ text p.context.info ∷ []))

add_fields-append :
    (xs ys : List Field) (b : Buffer)
    → add_fields (xs ++ ys) b ≡ (add_fields xs b >>= add_fields ys)
unfolding add_fields
add_fields-append [] ys b = refl
add_fields-append (x ∷ xs) ys b =
    >>=-split (add_field x b) (add_fields (xs ++ ys)) (add_fields xs) (add_fields ys)
      (add_fields-append xs ys)

buffer_add_cpu_register-fields :
    (r : Registers) (b : Buffer) → buffer_add_cpu_register r b ≡ add_fields (register_fields r) b
unfolding buffer_add_cpu_register register_fields add_fields add_field
buffer_add_cpu_register-fields r b = refl

pub pcb_serialize-fields :
    (p : ControlBlock) (b : Buffer) → pcb_serialize p b ≡ add_fields (pcb_fields p) b
unfolding pcb_serialize pcb_fields add_fields add_field buffer_add_context_switch
pcb_serialize-fields p b =
    let tail = word p.state ∷ text p.context.reason ∷ text p.context.info ∷ [] in
    let fs = register_fields p.cpu_registers in
    let serialize_rest : Buffer → Option Buffer =
      λ b2. buffer_add_cpu_register p.cpu_registers b2 >>= add_fields tail in
    let inner : (b2 : Buffer) → serialize_rest b2 ≡ add_fields (fs ++ tail) b2 = λ b2.
      ap (λ m. m >>= add_fields tail) (buffer_add_cpu_register-fields p.cpu_registers b2)
      ∙ sym (add_fields-append fs tail b2) in
    >>=-congruent (buffer_add_uint32 p.pid b) _ _
      (λ b1. >>=-congruent (buffer_add_uint32 p.quantum b1) _ _ inner)

pub pcb_stream_size_fits : (p : ControlBlock) → fields_size (pcb_fields p) ≤ pcb_stream_size p
unfolding pcb_stream_size pcb_fields fields_size field_size
pcb_stream_size_fits p = omega arith

buffer_read_cpu_register-encode :
    (r : Registers) (rest : List ℕ)
    → All IsField (register_fields r)
    → buffer_read_cpu_register (encode (register_fields r) rest) ≡ some (r, rest)
unfolding buffer_read_cpu_register register_fields encode IsField
buffer_read_cpu_register-encode r rest h =
    rw
      (
        read-word r.pc_register (encode (drop 1 (register_fields r)) rest) h.0,
        read-byte r.ax_register (encode (drop 2 (register_fields r)) rest) h.1.0,
        read-byte r.bx_register (encode (drop 3 (register_fields r)) rest) h.1.1.0,
        read-byte r.cx_register (encode (drop 4 (register_fields r)) rest) h.1.1.1.0,
        read-byte r.dx_register (encode (drop 5 (register_fields r)) rest) h.1.1.1.1.0,
        read-word r.eax_register (encode (drop 6 (register_fields r)) rest) h.1.1.1.1.1.0,
        read-word r.ebx_register (encode (drop 7 (register_fields r)) rest) h.1.1.1.1.1.1.0,
        read-word r.ecx_register (encode (drop 8 (register_fields r)) rest) h.1.1.1.1.1.1.1.0,
        read-word r.edx_register (encode (drop 9 (register_fields r)) rest) h.1.1.1.1.1.1.1.1.0,
        read-word r.si_register (encode (drop 10 (register_fields r)) rest) h.1.1.1.1.1.1.1.1.1.0,
        read-word r.di_register (encode (drop 11 (register_fields r)) rest) h.1.1.1.1.1.1.1.1.1.1.0,
      )
      refl

All-left : (xs ys : List Field) → All IsField (xs ++ ys) → All IsField xs
All-left [] ys h = tt
All-left (x ∷ xs) ys h = (h.0, All-left xs ys h.1)

All-right : (xs ys : List Field) → All IsField (xs ++ ys) → All IsField ys
All-right [] ys h = h
All-right (x ∷ xs) ys h = All-right xs ys h.1

pub pcb_deserialize-encode :
    (p : ControlBlock) (rest : List ℕ)
    → All IsField (pcb_fields p)
    → pcb_deserialize (encode (pcb_fields p) rest) ≡ some p
unfolding pcb_deserialize pcb_fields encode buffer_read_context_switch IsField
pcb_deserialize-encode p rest h =
    let c = p.context in
    let tail = word p.state ∷ text c.reason ∷ text c.info ∷ [] in
    let fs = register_fields p.cpu_registers in
    let regs = All-left fs tail h.1.1 in
    let last = All-right fs tail h.1.1 in
    let after = encode tail rest in
    rw
      (
        read-word p.pid (word_bytes p.quantum ++ encode fs after) h.0,
        read-word p.quantum (encode fs after) h.1.0,
        buffer_read_cpu_register-encode p.cpu_registers after regs,
        read-word p.state (field_bytes (text c.reason) ++ (field_bytes (text c.info) ++ rest))
            last.0,
        read-text c.reason (field_bytes (text c.info) ++ rest) last.1.0,
        read-text c.info rest last.1.1.0,
      )
      refl

abbrev pub pcb_format : Format ControlBlock
pcb_format = record {
  operation = pcb_op;
  stream_size = pcb_stream_size;
  serialize = pcb_serialize;
  deserialize = pcb_deserialize;
  fields = pcb_fields;
  serialize-fields = pcb_serialize-fields;
  stream_size_fits = pcb_stream_size_fits;
  deserialize-encode = pcb_deserialize-encode;
}
