-- ===== src/Wire.antt =====
-- The records of the ring buffer as bytes: the structures of daemon/src/common.h as the kernel
-- programs lay them out (x86_64, little endian), and the casts of `handle_event` in
-- daemon/src/nhi.c, which go by the size of a record alone.
pub mod Laws
pub mod Layout
mod Tests
use nhi.Prelude.{
  ℕ, zero, suc, ◌+◌, ◌*◌, ◌/◌, ◌%◌, List, [], ◌∷◌, ◌++◌, length, take, drop, ◌==◌, if◌then◌else◌,
}
use nhi.Common.{Event, killed, child_created, shell_exited, written, sizeof_long, sizeof_pid}

-- An integer of so many bytes, the lowest first.
unfoldable pub le_bytes : ℕ → ℕ → List ℕ
le_bytes zero v = []
le_bytes (suc k) v = v % 256 ∷ le_bytes k (v / 256)

unfoldable pub read_le : ℕ → List ℕ → ℕ
read_le zero bytes = 0
read_le (suc k) [] = 0
read_le (suc k) (b ∷ bytes) = b + 256 * read_le k bytes

-- What the kernel programs put into the ring buffer.
unfoldable pub encode : Event → List ℕ
unfolding le_bytes
encode (killed e) =
    le_bytes 4 e.shell_pid ++ (le_bytes 4 e.sig ++ le_bytes 8 e.parent_shell_indicator)
encode (child_created shell_pid) = le_bytes 4 shell_pid
encode (shell_exited e) = le_bytes 8 e.indicator
encode (written w) = le_bytes 8 w.indicator ++ w.output

-- The casts of `handle_event`; `data_sz` is the length of the record.
unfoldable pub event_of : List ℕ → Event
unfolding read_le
event_of bytes =
    if length bytes == 16
    then killed (record {
      shell_pid = read_le 4 bytes;
      sig = read_le 4 (drop 4 bytes);
      parent_shell_indicator = read_le 8 (drop 8 bytes);
    })
    else if length bytes == sizeof_pid
    then child_created (read_le 4 bytes)
    else if length bytes == 8
    then shell_exited (record { indicator = read_le 8 bytes })
    else written (record { indicator = read_le 8 bytes; output = drop sizeof_long bytes })
