-- ===== src/Kernel/Steps/Output.antt =====
-- The fields of the entries and of the events stay within their types, and the scratch buffer keeps its
-- size: `ksys_write` of daemon/src/nhi.bpf.c.
use nhi.Prelude.{
  ℕ, ◌+◌, ◌<◌, ◌≤◌, ◌^◌, ◌-◌, ◌≡◌, ◌≢◌, refl, sym, ap, subst, ◌∙◌, Bool, List, [], ◌∷◌, none, some,
  All, All-append, Bool-cases, inl, inr, arith, length, length-drop, get_elem?, set, take, drop,
}
use mathlib.Core.Option.{some-injective}
use nhi.Common.{Shell, written, shell_pid_of, shells_max_entries}
use nhi.Kernel.Maps.{Maps, Scratch}
use nhi.Kernel.Scan.{Search, hit, free, exhausted, search_loop}
use nhi.Kernel.Scan.Every.{All-set, All-get, IsFound, search_loop-IsFound}
use nhi.Wire.Laws.{IsSent}
use nhi.Kernel.Write.Escape.{EscapeEnd, escape_loop}
use nhi.Kernel.Write.Silent.{length-escape_loop}
use nhi.Kernel.Write.Cases.{write_to_file_cases, ksys_write_cases}
use nhi.Kernel.Write.Sizes.{
  IsReadable, length-read_user, clamp_count_bounds, output-IsWriteSize, emit_cases,
}
use nhi.Kernel.Write.{
  Kernel, WriteCall, Target, clamp_count, read_user, fill, padded, specificity_of, with_end,
  with_inode, find_target, emit, finish_write, write_output, ksys_write,
}
use nhi.Kernel.Steps.Held.{escape_loop_keeps}
use nhi.Kernel.Steps.Writes.{emit_tables}
use nhi.Kernel.Steps.Fields.{IsShell, IsChild, IsTyped}

-- The scratch map holds a buffer of its size.
abbrev pub IsScratch : List Scratch → Type 0
IsScratch m = (scratch : Scratch) × (m ≡ scratch ∷ []) × (length scratch.output ≡ 32760)

-- The entry that is written to belongs to a shell, or the indicator is still 0.
target_bound :
    {maps : Maps}
    → IsTyped maps
    → (pid : ℕ) (target : Target) → find_target pid maps.shells ≡ some target
    → (r : Search Shell) → IsFound IsShell r
    → search_loop shell_pid_of pid shells_max_entries 0 maps.shells ≡ r
    → target.indicator < 256 ^ 8
unfolding find_target
target_bound {maps} t pid target e (hit i s) found r =
    let at : find_target pid maps.shells
        ≡ some (record { shell_index = i; shell = some s; indicator = s.indicator }) =
      rw (find_target, r) refl in
    let same = some-injective _ _ (sym e ∙ at) in
    omega (arith, found, ap (λ (g : Target). g.indicator) same)
target_bound {maps} t pid target e (free i) found r =
    let gone : find_target pid maps.shells ≡ none = rw (find_target, r) refl in
    absurd (cc (e, gone))
target_bound {maps} t pid target e exhausted found r =
    let at : find_target pid maps.shells
        ≡ some (record {
          shell_index = shells_max_entries;
          shell = get_elem? maps.shells (shells_max_entries - 1);
          indicator = 0;
        }) =
      rw (find_target, r) refl in
    let same = some-injective _ _ (sym e ∙ at) in
    omega (arith, ap (λ (g : Target). g.indicator) same)

pub same_entries :
    {maps maps' : Maps}
    → maps'.shells ≡ maps.shells
    → maps'.children ≡ maps.children
    → maps'.ring_buffer ≡ maps.ring_buffer
    → IsTyped maps
    → IsTyped maps'
same_entries e e' e'' t = record {
  shells = subst (All IsShell) (sym e) t.shells;
  children = subst (All IsChild) (sym e') t.children;
  events = subst (All IsSent) (sym e'') t.events;
}

emit_scratch :
    (room : Bool) (shell_index indicator count : ℕ) (output : List ℕ) (maps : Maps)
    → (emit room shell_index indicator count output maps).ksys_write_event ≡ maps.ksys_write_event
unfolding emit
emit_scratch room shell_index indicator count output maps = ground arith

-- The maps as the program keeps them.
abbrev pub IsKept : Maps → Type 0
IsKept maps = IsTyped maps × IsScratch maps.ksys_write_event

emit-IsKept :
    (room : Bool) (shell_index indicator count : ℕ) (output : List ℕ) (maps : Maps)
    → indicator < 256 ^ 8
    → 1 ≤ count
    → count ≤ 32759
    → length output ≡ 32760
    → IsKept maps
    → IsKept (emit room shell_index indicator count output maps)
emit-IsKept room shell_index indicator count output maps bound lo hi full (t, (scratch, e, len)) =
    let after = emit room shell_index indicator count output maps in
    let (same, same') = emit_tables room shell_index indicator count output maps in
    let event =
      written (record { indicator = indicator; output = take (padded count + 1) output }) in
    let events : All IsSent after.ring_buffer =
      elim (emit_cases room shell_index indicator count output maps) [
        | inl none' ↦ subst (All IsSent) (sym none') t.events
        | inr one ↦ subst (All IsSent) (sym one) (
            All-append IsSent maps.ring_buffer (event ∷ []) t.events
              ((bound, output-IsWriteSize count output lo hi full), tt))
      ] in
    (
      record {
        shells = subst (All IsShell) (sym same) t.shells;
        children = subst (All IsChild) (sym same') t.children;
        events = events;
      },
      (scratch, emit_scratch room shell_index indicator count output maps ∙ e, len),
    )

finish_write-IsKept :
    (room : Bool) (target : Target) (count : ℕ) (end : EscapeEnd) (maps : Maps)
    → target.indicator < 256 ^ 8
    → 1 ≤ count
    → count ≤ 32759
    → All IsShell end.shells
    → length end.output ≡ 32760
    → IsKept maps
    → IsKept (finish_write room target count end maps)
unfolding finish_write
finish_write-IsKept room target count end maps bound lo hi shells len (t, (scratch, e, len')) =
    let scratch' : Scratch = record { indicator = target.indicator; output = end.output } in
    let kept : IsKept (with_end target end maps) = (
      record { shells = shells; children = t.children; events = t.events },
      (scratch', ap (λ m. set m 0 scratch') e, len),
    ) in
    elim (Bool-cases end.returned) [
      | inl r ↦ rw (finish_write, r) kept
      | inr r ↦
          rw (finish_write, r)
            (emit-IsKept room target.shell_index target.indicator count end.output
              (with_end target end maps) bound lo hi len kept)
    ]

change-All :
    (shell_index : ℕ) (shells : List Shell) (helper : Shell) (omit_write : ℕ)
    → All IsShell shells
    → get_elem? shells shell_index ≡ some helper
    → All IsShell (set shells shell_index (record helper { omit_write = omit_write }))
change-All shell_index shells helper omit_write all e =
    All-set IsShell shells shell_index (record helper { omit_write = omit_write }) all
      (All-get IsShell shells shell_index helper all e)

write_output-IsKept :
    (kernel : Kernel) (call : WriteCall) (target : Target) (maps : Maps)
    → target.indicator < 256 ^ 8
    → call.count ≢ 0
    → IsReadable call.buf call.count
    → IsKept maps
    → IsKept (write_output kernel call target maps)
unfolding write_output fill
write_output-IsKept kernel call target maps bound nz readable (t, (scratch, e, len)) =
    let (lo, hi) = clamp_count_bounds call.count nz in
    let count = clamp_count call.count in
    let first = specificity_of call.fd ∷ drop 1 scratch.output in
    let output = read_user first count call.buf in
    let at : get_elem? maps.ksys_write_event 0 ≡ some scratch = ap (λ l. get_elem? l 0) e in
    rw (write_output, at)
      (finish_write-IsKept kernel.room target count
        (escape_loop target.shell_index count 511 1 maps.shells output) maps bound lo hi
        (escape_loop_keeps (All IsShell) target.shell_index count (change-All target.shell_index)
          511 1 maps.shells output t.shells)
        (length-escape_loop target.shell_index count 511 1 maps.shells output
          ∙ length-read_user first call.count call.buf (omega (arith, length-drop 1 scratch.output))
              hi readable)
        (t, (scratch, e, len)))

pub ksys_write-IsKept :
    (kernel : Kernel) (call : WriteCall) (maps : Maps)
    → IsReadable call.buf call.count
    → IsKept maps
    → IsKept (ksys_write kernel call maps)
ksys_write-IsKept kernel call maps readable kept =
    ksys_write_cases IsKept kernel call maps kept λ nz pid target shell found.
      let bound =
        target_bound kept.0 pid target found _
          (search_loop-IsFound IsShell shell_pid_of pid maps.shells kept.0.shells shells_max_entries
            0)
          refl in
      write_to_file_cases IsKept kernel call maps target shell kept
        (λ d. (same_entries refl refl refl kept.0, kept.1))
        λ d.
          write_output-IsKept kernel call target (with_inode d maps) bound nz readable
            (same_entries refl refl refl kept.0, kept.1)
