-- ===== src/Wire/ControlBlock.antt =====
-- A process control block as a message: utils/src/pcb.c, and its streams in utils/src/utils.c and
-- utils/src/serialization.c.
use ronaldinh_os_sistemas_op.Common.{ℕ, ◌+◌, List, [], Option, some, ◌>>=◌, length, Ram}
use ronaldinh_os_sistemas_op.Cpu.Registers.{Registers}
use ronaldinh_os_sistemas_op.Wire.OpCodes.{pcb_op}
use ronaldinh_os_sistemas_op.Wire.Buffer.{
  Buffer, buffer_add_uint32, buffer_add_uint8, buffer_add_string, buffer_read_uint32,
  buffer_read_uint8, buffer_read_string, send_package, recv_with,
}

-- `contextSwitch`.
pub record ContextSwitch : Type 0 where
  pub reason : List ℕ
  pub info : List ℕ

-- `pcb`, with all that it holds; the state is the number of its `stateProcess`.
pub record ControlBlock : Type 0 where
  pub pid : ℕ
  pub quantum : ℕ
  pub cpu_registers : Registers
  pub state : ℕ
  pub context : ContextSwitch

-- `newPcb` and `initRegister`.
unfoldable pub new_control_block : ℕ → ControlBlock
new_control_block pid = record {
  pid = pid;
  quantum = 0;
  cpu_registers = record {
    pc_register = 0;
    ax_register = 0;
    bx_register = 0;
    cx_register = 0;
    dx_register = 0;
    eax_register = 0;
    ebx_register = 0;
    ecx_register = 0;
    edx_register = 0;
    si_register = 0;
    di_register = 0;
  };
  state = 0;
  context = record { reason = []; info = [] };
}

-- `pcbStreamSize`: a register is counted by the eight bytes of its pointer, and neither the state nor
-- the zero bytes of the texts are.
unfoldable pub pcb_stream_size : ControlBlock → ℕ
pcb_stream_size p =
    4
    + 4
    + (8 + 8 + 8 + 8 + 8 + 8 + 8 + 8 + 8 + 8 + 8)
    + 4
    + length p.context.reason
    + 4
    + length p.context.info

-- `bufferAddCpuRegister`.
unfoldable pub buffer_add_cpu_register : Registers → Buffer → Option Buffer
buffer_add_cpu_register r b = buffer_add_uint32 r.pc_register b >>= λ b1.
    buffer_add_uint8 r.ax_register b1 >>= λ b2. buffer_add_uint8 r.bx_register b2 >>= λ b3.
    buffer_add_uint8 r.cx_register b3 >>= λ b4. buffer_add_uint8 r.dx_register b4 >>= λ b5.
    buffer_add_uint32 r.eax_register b5 >>= λ b6. buffer_add_uint32 r.ebx_register b6 >>= λ b7.
    buffer_add_uint32 r.ecx_register b7 >>= λ b8. buffer_add_uint32 r.edx_register b8 >>= λ b9.
    buffer_add_uint32 r.si_register b9 >>= λ b10.
    buffer_add_uint32 r.di_register b10 >>= λ b11. some b11

-- `bufferReadCpuRegister`.
unfoldable pub buffer_read_cpu_register : List ℕ → Option (Registers × List ℕ)
buffer_read_cpu_register stream = buffer_read_uint32 stream >>= λ (pc, s1).
    buffer_read_uint8 s1 >>= λ (ax, s2). buffer_read_uint8 s2 >>= λ (bx, s3).
    buffer_read_uint8 s3 >>= λ (cx, s4). buffer_read_uint8 s4 >>= λ (dx, s5).
    buffer_read_uint32 s5 >>= λ (eax, s6). buffer_read_uint32 s6 >>= λ (ebx, s7).
    buffer_read_uint32 s7 >>= λ (ecx, s8). buffer_read_uint32 s8 >>= λ (edx, s9).
    buffer_read_uint32 s9 >>= λ (si, s10). buffer_read_uint32 s10 >>= λ (di, s11). some (
      record {
        pc_register = pc;
        ax_register = ax;
        bx_register = bx;
        cx_register = cx;
        dx_register = dx;
        eax_register = eax;
        ebx_register = ebx;
        ecx_register = ecx;
        edx_register = edx;
        si_register = si;
        di_register = di;
      },
      s11,
    )

-- `bufferAddCcontextSwitch`.
unfoldable pub buffer_add_context_switch : ContextSwitch → Buffer → Option Buffer
buffer_add_context_switch c b =
    buffer_add_string c.reason b >>= λ b1. buffer_add_string c.info b1 >>= λ b2. some b2

-- `bufferReadcontextSwitch`.
unfoldable pub buffer_read_context_switch : List ℕ → Option (ContextSwitch × List ℕ)
buffer_read_context_switch stream = buffer_read_string stream >>= λ (reason, s1).
    buffer_read_string s1 >>= λ (info, s2). some (record { reason = reason; info = info }, s2)

-- `pcbSerialize`.
unfoldable pub pcb_serialize : ControlBlock → Buffer → Option Buffer
unfolding buffer_add_cpu_register buffer_add_context_switch
pcb_serialize p b = buffer_add_uint32 p.pid b >>= λ b1. buffer_add_uint32 p.quantum b1 >>= λ b2.
    buffer_add_cpu_register p.cpu_registers b2 >>= λ b3.
    buffer_add_uint32 p.state b3 >>= λ b4. buffer_add_context_switch p.context b4

-- `pcbDeserialize`.
unfoldable pub pcb_deserialize : List ℕ → Option ControlBlock
unfolding buffer_read_cpu_register buffer_read_context_switch
pcb_deserialize stream = buffer_read_uint32 stream >>= λ (pid, s1).
    buffer_read_uint32 s1 >>= λ (quantum, s2).
    buffer_read_cpu_register s2 >>= λ (cpu_registers, s3). buffer_read_uint32 s3 >>= λ (state, s4).
    buffer_read_context_switch s4 >>= λ (context, s5). some (record {
      pid = pid;
      quantum = quantum;
      cpu_registers = cpu_registers;
      state = state;
      context = context;
    })

-- `sendPcb`.
unfoldable pub send_pcb : ControlBlock → Ram → Option (List ℕ)
unfolding send_package pcb_stream_size pcb_serialize
send_pcb p garbage = send_package pcb_op (pcb_stream_size p) (pcb_serialize p) garbage

-- `recvPcb`.
unfoldable pub recv_pcb : List ℕ → Option (ControlBlock × List ℕ)
unfolding recv_with pcb_deserialize
recv_pcb socket = recv_with pcb_deserialize socket
