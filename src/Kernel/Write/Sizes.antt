-- ===== src/Kernel/Write/Sizes.antt =====
-- The size of the records that `ksys_write` puts into the ring buffer.
use nhi.Prelude.{
  ℕ, ◌+◌, ◌<◌, ◌≤◌, ◌≡◌, ◌≢◌, refl, ap, ◌⊎◌, inl, inr, Bool, List, [], ◌∷◌, ◌++◌, Option, none,
  some, arith, length, length-append, length-take, length-drop, take, drop, get_elem?, ◌∙◌, subst,
  sym, Bool-cases,
}
use nhi.Common.{WriteEvent, Event, written, sizeof_long, ksys_write_event_size}
use nhi.Kernel.Maps.{Maps, Scratch}
use nhi.Kernel.Write.Escape.{EscapeEnd}
use nhi.Kernel.Write.Silent.{length-escape_loop}
use nhi.Kernel.Write.Cases.{write_to_file_cases, ksys_write_cases}
use nhi.Kernel.Write.{
  Kernel, WriteCall, Target, clamp_count, read_user, fill, padded, with_end, with_inode,
  specificity_of, emit, finish_write, write_output, ksys_write,
}

-- A record that the daemon takes for a write: larger than a pid, an indicator and an empty write,
-- of another size than a kill event, and within the scratch buffer.
pub record IsWriteSize (size : ℕ) : Type 0 where
  pub long : 9 < size
  pub not_kill : size ≢ 16
  pub fits : size ≤ ksys_write_event_size

-- The events grow by nothing, or by one write of such a size.
abbrev pub Sends : List Event → List Event → Type 0
Sends before after =
    (after ≡ before)
    ⊎ ((w : WriteEvent) × (after ≡ before ++ written w ∷ [])
        × IsWriteSize (sizeof_long + length w.output))

padded_bounds :
    (count : ℕ)
    → 1 ≤ count
    → count ≤ 32759
    → (padded count + 1 ≤ 32760) × IsWriteSize (sizeof_long + (padded count + 1))
unfolding padded
padded_bounds count lo hi = ground arith

pub output-IsWriteSize :
    (count : ℕ) (output : List ℕ)
    → 1 ≤ count
    → count ≤ 32759
    → length output ≡ 32760
    → IsWriteSize (sizeof_long + length (take (padded count + 1) output))
output-IsWriteSize count output lo hi len =
    let (short, size) = padded_bounds count lo hi in
    subst (λ k. IsWriteSize (sizeof_long + k))
      (sym (length-take (padded count + 1) output (omega arith))) size

module _ (room : Bool) (shell_index indicator count : ℕ) (output : List ℕ) (maps : Maps) where
  pub emit_cases :
      let after = (emit room shell_index indicator count output maps).ring_buffer in
      (after ≡ maps.ring_buffer)
      ⊎ (after
          ≡ maps.ring_buffer
            ++ written (record { indicator = indicator; output = take (padded count + 1) output })
              ∷ [])
  unfolding emit
  emit_cases = ground arith

  emit-Sends :
      1 ≤ count
      → count ≤ 32759
      → length output ≡ 32760
      → Sends maps.ring_buffer (emit room shell_index indicator count output maps).ring_buffer
  emit-Sends lo hi len = elim emit_cases [
    | inl e ↦ inl e
    | inr e ↦
        let w : WriteEvent = record {
          indicator = indicator;
          output = take (padded count + 1) output;
        } in
        inr (w, e, output-IsWriteSize count output lo hi len)
  ]

-- The memory at `buf` is read whole: it has the `count` bytes that are asked for.
abbrev pub IsReadable : Option (List ℕ) → ℕ → Type 0
IsReadable none count = Unit
IsReadable (some memory) count = clamp_count count ≤ length memory

pub length-read_user :
    (output : List ℕ) (count : ℕ) (buf : Option (List ℕ))
    → length output ≡ 32760
    → clamp_count count ≤ 32759
    → IsReadable buf count
    → length (read_user output (clamp_count count) buf) ≡ 32760
unfolding read_user
length-read_user output count none len h enough = len
length-read_user output count (some memory) len h enough = omega (
  arith,
  length-append (take 1 output)
      (take (clamp_count count) memory ++ drop (clamp_count count + 1) output),
  length-append (take (clamp_count count) memory) (drop (clamp_count count + 1) output),
  length-take 1 output (omega arith),
  length-take (clamp_count count) memory enough,
  length-drop (clamp_count count + 1) output,
)

pub clamp_count_bounds :
    (count : ℕ) → count ≢ 0 → (1 ≤ clamp_count count) × (clamp_count count ≤ 32759)
unfolding clamp_count
clamp_count_bounds count h = ground arith

finish_write-Sends :
    (room : Bool) (target : Target) (count : ℕ) (end : EscapeEnd) (maps : Maps)
    → 1 ≤ count
    → count ≤ 32759
    → length end.output ≡ 32760
    → Sends maps.ring_buffer (finish_write room target count end maps).ring_buffer
unfolding finish_write
finish_write-Sends room target count end maps lo hi len = elim (Bool-cases end.returned) [
  | inl r ↦ inl (rw (finish_write, r))
  | inr r ↦
      rw (finish_write, r)
        (emit-Sends room target.shell_index target.indicator count end.output
          (with_end target end maps) lo hi len)
]

write_output-Sends :
    (kernel : Kernel) (call : WriteCall) (target : Target) (maps : Maps) (scratch : Scratch)
    → maps.ksys_write_event ≡ scratch ∷ []
    → length scratch.output ≡ 32760
    → call.count ≢ 0
    → IsReadable call.buf call.count
    → Sends maps.ring_buffer (write_output kernel call target maps).ring_buffer
unfolding write_output fill
write_output-Sends kernel call target maps scratch e len nz readable =
    let (lo, hi) = clamp_count_bounds call.count nz in
    let count = clamp_count call.count in
    let first = specificity_of call.fd ∷ drop 1 scratch.output in
    let at : get_elem? maps.ksys_write_event 0 ≡ some scratch = ap (λ l. get_elem? l 0) e in
    rw (write_output, at)
      (finish_write-Sends kernel.room target count _ maps lo hi (
        length-escape_loop target.shell_index count 511 1 maps.shells
          (read_user first count call.buf)
        ∙ length-read_user first call.count call.buf (omega (arith, length-drop 1 scratch.output))
            hi readable))

-- Whatever a write(2) is of, and however large, while the scratch buffer has its 32760 bytes: the
-- program sends nothing, or one record of a write whose size the daemon cannot take for that of
-- another event, and which is no larger than the 32768 bytes of the whole scratch buffer.
pub ksys_write-Sends :
    (kernel : Kernel) (call : WriteCall) (maps : Maps) (scratch : Scratch)
    → maps.ksys_write_event ≡ scratch ∷ []
    → length scratch.output ≡ 32760
    → IsReadable call.buf call.count
    → Sends maps.ring_buffer (ksys_write kernel call maps).ring_buffer
ksys_write-Sends kernel call maps scratch e len readable =
    let Q : Maps → Type 0 = λ m. Sends maps.ring_buffer m.ring_buffer in
    ksys_write_cases Q kernel call maps (inl refl) λ nz pid target shell found.
      write_to_file_cases Q kernel call maps target shell (inl refl) (λ d. inl refl)
        λ d. write_output-Sends kernel call target (with_inode d maps) scratch e len nz readable
