-- ===== src/Descriptor/State.antt =====
-- The structure NGBufferedDescriptor, its constructors, and the arithmetic on its read buffer.
use sope_appserver.Prelude.{
  ℕ, ◌+◌, ◌-◌, Bool, true, false, Option, none, some, [], ◌==◌, if◌then◌else◌, Bytes, length, drop,
}

-- The filled part of each buffer is a list, so `readBufferFillSize` and `writeBufferFillSize` are
-- lengths; `read_pos` is `readBufferPos - readBuffer`. `faulted` is no field of the structure: it
-- records that a call ran into undefined behaviour.
pub record Descriptor : Type 0 where
  pub read_buffer : Bytes
  pub read_pos : ℕ
  pub read_size : ℕ
  pub write_buffer : Bytes
  pub write_size : ℕ
  pub owns_fd : Bool
  pub faulted : Bool

abbrev pub new_with_size : ℕ → Descriptor
new_with_size size = record {
  read_buffer = [];
  read_pos = 0;
  read_size = size;
  write_buffer = [];
  write_size = size;
  owns_fd = false;
  faulted = false;
}

abbrev pub new_default : Descriptor
new_default = new_with_size 1024

abbrev pub new_owned : ℕ → Descriptor
new_owned size = record (new_with_size size) { owns_fd = true }

-- A null pointer has no buffer.
pub read_buffer_size : Option Descriptor → ℕ
read_buffer_size none = 0
read_buffer_size (some d) = d.read_size

pub write_buffer_size : Option Descriptor → ℕ
write_buffer_size none = 0
write_buffer_size (some d) = d.write_size

abbrev pub consumed : Descriptor → ℕ
consumed d = if d.read_size == 0 then 0 else d.read_pos

abbrev pub available : Descriptor → ℕ
available d = length d.read_buffer - consumed d

-- The bytes from `readBufferPos` to the end of the filled part.
abbrev pub unread : Descriptor → Bytes
unread d = drop d.read_pos d.read_buffer

-- `readBufferPos = readBuffer; readBufferFillSize = 0`.
abbrev pub reset : Descriptor → Descriptor
reset d = record d { read_buffer = []; read_pos = 0 }

abbrev pub check_fill : Descriptor → Descriptor
check_fill d = if available d == 0 then reset d else d

-- `readBufferPos += n`, with the check that follows it.
abbrev pub advance : ℕ → Descriptor → Descriptor
advance n d = check_fill (record d { read_pos = d.read_pos + n })
