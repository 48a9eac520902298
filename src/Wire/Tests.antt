-- ===== src/Wire/Tests.antt =====
-- Runs of the messages: a request to sleep, a write to a file, and a process control block.
use ronaldinh_os_sistemas_op.Common.{ℕ, ◌≡◌, ◌++◌, refl, List, [], ◌∷◌, some, arith, Ram}
use ronaldinh_os_sistemas_op.Wire.OpCodes.{package_op}
use ronaldinh_os_sistemas_op.Wire.Buffer.{word_bytes}
use ronaldinh_os_sistemas_op.Wire.Fields.{IsField}
use ronaldinh_os_sistemas_op.Wire.ControlBlock.{new_control_block, pcb_stream_size}
use ronaldinh_os_sistemas_op.Wire.Texts.{add_packages, send_values, receive_pack}
use ronaldinh_os_sistemas_op.Wire.TextsRoundTrip.{receive_pack-send_values}
use ronaldinh_os_sistemas_op.Wire.Messages.{
  Message, io_fs_write, operation_of, fields_of, size_of, send_message, receive_like,
}
use ronaldinh_os_sistemas_op.Wire.RoundTrip.{receive_like-send_message}

abbrev zeroes : Ram
zeroes a = 0

-- The file "a", at the address 8, two bytes, from the pointer 16 on.
abbrev write_file : Message
write_file = io_fs_write (record {
  pid = 1;
  file_name = 97 ∷ [];
  physical_adress = 8;
  length_to_write = 2;
  file_pointer = 16;
})

receive_like-send_message_example :
    (bytes : List ℕ) × (send_message write_file zeroes ≡ some bytes)
    × (receive_like write_file (bytes ++ 9 ∷ [])
        ≡ some (operation_of write_file, write_file, 9 ∷ []))
unfolding size_of fields_of IsField
receive_like-send_message_example =
    receive_like-send_message write_file zeroes (9 ∷ []) (omega arith) (omega arith)

receive_pack-send_values_example :
    receive_pack (send_values ((1 ∷ 2 ∷ []) ∷ [] ∷ (3 ∷ []) ∷ []) ++ 7 ∷ [])
    ≡ some (package_op, (1 ∷ 2 ∷ []) ∷ [] ∷ (3 ∷ []) ∷ [], 7 ∷ [])
unfolding add_packages word_bytes
receive_pack-send_values_example =
    receive_pack-send_values ((1 ∷ 2 ∷ []) ∷ [] ∷ (3 ∷ []) ∷ []) (7 ∷ []) (omega arith)

-- The stream of a new process control block has 104 bytes, of which 54 are written.
new_block_size : pcb_stream_size (new_control_block 1) ≡ 104
unfolding pcb_stream_size new_control_block
new_block_size = refl
