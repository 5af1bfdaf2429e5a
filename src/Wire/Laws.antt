-- ===== src/Wire/Laws.antt =====
-- The daemon reads every record as the event that the kernel programs sent.
use native.Mathlib.Nat.{pow-suc}
use nhi.Prelude.{
  ℕ, zero, suc, ◌+◌, ◌/◌, ◌^◌, ◌<◌, ◌≡◌, refl, ap, List, [], ◌++◌, arith, length, drop, ◌==◌, ne→==,
  false,
}
use nhi.Common.{Event, killed, child_created, shell_exited, written, sizeof_long}
use nhi.Kernel.Write.Sizes.{IsWriteSize}
use nhi.Wire.{le_bytes, read_le, encode, event_of}

pub length-le_bytes : (k v : ℕ) → length (le_bytes k v) ≡ k
unfolding le_bytes
length-le_bytes zero v = refl
length-le_bytes (suc k) v = ap suc (length-le_bytes k (v / 256))

pub drop-le_bytes : (k v : ℕ) (rest : List ℕ) → drop k (le_bytes k v ++ rest) ≡ rest
unfolding le_bytes
drop-le_bytes zero v rest = refl
drop-le_bytes (suc k) v rest = drop-le_bytes k (v / 256) rest

pub read_le-le_bytes :
    (k v : ℕ) (rest : List ℕ) → v < 256 ^ k → read_le k (le_bytes k v ++ rest) ≡ v
unfolding le_bytes read_le
read_le-le_bytes zero v rest h = omega arith
read_le-le_bytes (suc k) v rest h =
    let small : v / 256 < 256 ^ k = omega (arith, pow-suc 256 k) in
    omega (arith, read_le-le_bytes k (v / 256) rest small)

-- What the kernel programs send: pids, signals and indicators within their types, and writes whose
-- size is one of a write.
abbrev pub IsSent : Event → Type 0
IsSent (killed e) =
    (e.shell_pid < 256 ^ 4) × (e.sig < 256 ^ 4) × (e.parent_shell_indicator < 256 ^ 8)
IsSent (child_created shell_pid) = shell_pid < 256 ^ 4
IsSent (shell_exited e) = e.indicator < 256 ^ 8
IsSent (written w) = (w.indicator < 256 ^ 8) × IsWriteSize (sizeof_long + length w.output)

-- Every event whose fields are within their types, and whose size is one of a write if it is a
-- write, is read back as it was sent.
pub event_of-encode : (e : Event) → IsSent e → event_of (encode e) ≡ e
unfolding encode event_of
event_of-encode (killed e) h =
    let pid = read_le-le_bytes 4 e.shell_pid [] h.0 in
    let sig = read_le-le_bytes 4 e.sig [] h.1 in
    let indicator = read_le-le_bytes 8 e.parent_shell_indicator [] h.2 in
    λ i. killed (record { shell_pid = pid i; sig = sig i; parent_shell_indicator = indicator i })
event_of-encode (child_created shell_pid) h = ap child_created (read_le-le_bytes 4 shell_pid [] h)
event_of-encode (shell_exited e) h =
    let indicator = read_le-le_bytes 8 e.indicator [] h in
    λ i. shell_exited (record { indicator = indicator i })
event_of-encode (written w) (small, size) =
    let indicator = read_le-le_bytes 8 w.indicator w.output small in
    let not_kill : (length (encode (written w)) == 16) ≡ false =
      ne→== (length (encode (written w))) 16 (omega arith) in
    let not_pid : (length (encode (written w)) == 4) ≡ false =
      ne→== (length (encode (written w))) 4 (omega arith) in
    let not_exit : (length (encode (written w)) == 8) ≡ false =
      ne→== (length (encode (written w))) 8 (omega arith) in
    rw (not_kill, not_pid, not_exit)
      (λ i. written (record { indicator = indicator i; output = w.output }))
