-- ===== src/Kernel/Write/Leave.antt =====
-- A write that leaves the alternate screen: `ksys_write` of daemon/src/nhi.bpf.c.
use nhi.Prelude.{
  ℕ, zero, suc, ◌+◌, ◌-◌, ◌<◌, ◌≤◌, ◌≡◌, ◌≢◌, refl, sym, ap, ◌∙◌, true, false, List, [], ◌∷◌, ◌++◌,
  some, arith, length, length-append, drop, All, All-append, ◌==◌, ne→==, get_elem?, append_assoc,
  set,
}
use nhi.Common.{Shell, Child}
use nhi.Kernel.Maps.{Maps, bpf_map_update_elem}
use nhi.Kernel.Write.Terminal.{byte_at}
use nhi.Kernel.Write.Escape.{is_escape, erase_escape, EscapeEnd, escape_loop}
use nhi.Kernel.Write.Silent.{is_escape-false, escape_loop-silent}
use nhi.Kernel.Write.Recorded.{ShownWrite, ksys_write-shown, write_output-fills, dentry_of}
use nhi.Kernel.Write.Erasure.{
  leave_sequence, erased, leave-is_escape, erase_escape_lem, quiet_zeros,
}
use nhi.Kernel.Write.Laws.{text_event, quiet_bytes, finish_write-silent}
use nhi.Kernel.Write.{
  Kernel, WriteCall, Target, with_inode, specificity_of, finish_write, ksys_write,
}

-- The loop passes over bytes that are no escape character.
escape_loop-pass :
    (shell_index count n rounds i : ℕ) (shells : List Shell) (output : List ℕ)
    → i + n ≤ count
    → ((j : ℕ) → i ≤ j → j < i + n → byte_at output j ≢ 27)
    → escape_loop shell_index count (n + rounds) i shells output
      ≡ escape_loop shell_index count rounds (i + n) shells output
unfolding escape_loop
escape_loop-pass shell_index count zero rounds i shells output h quiet =
    let e : 0 + rounds ≡ rounds = omega arith in let e' : i + 0 ≡ i = omega arith in rw (e, e')
escape_loop-pass shell_index count (suc n) rounds i shells output h quiet =
    let e : suc n + rounds ≡ suc (n + rounds) = omega arith in
    let e' : i + suc n ≡ i + 1 + n = omega arith in
    let going : (i == count) ≡ false = ne→== i count (omega arith) in
    let here : is_escape output i ≡ false =
      is_escape-false output i (quiet i (omega arith) (omega arith)) in
    rw (e, e', escape_loop, going, here)
      (escape_loop-pass shell_index count n rounds (i + 1) shells output (omega arith)
        (λ j a b. quiet j (omega arith) (omega arith)))

-- The round that meets the sequence.
escape_loop-leave :
    (shell_index count rounds i : ℕ) (shells : List Shell) (output : List ℕ) (helper : Shell)
    → i < count
    → is_escape output i ≡ true
    → byte_at output (i + 7) ≡ b'l'
    → get_elem? shells shell_index ≡ some helper
    → escape_loop shell_index count (suc rounds) i shells output
      ≡ escape_loop shell_index count rounds
          (i + 1)
          (bpf_map_update_elem shells shell_index (record helper { omit_write = 0 }))
          (erase_escape output i)
unfolding escape_loop
escape_loop-leave shell_index count rounds i shells output helper h esc l g =
    let going : (i == count) ≡ false = ne→== i count (omega arith) in
    let other : (byte_at output (i + 7) == b'h') ≡ false = rw l refl in
    let there : (byte_at output (i + 7) == b'l') ≡ true = rw l refl in
    rw (escape_loop, going, esc, g, other, there) refl

get_elem?-set :
    (m : List Shell) (i : ℕ) (s v : Shell)
    → get_elem? m i ≡ some s
    → get_elem? (set m i v) i ≡ some v
get_elem?-set [] i s v e = cc
get_elem?-set (x ∷ m) zero s v e = refl
get_elem?-set (x ∷ m) (suc i) s v e = get_elem?-set m i s v e

-- The whole loop, over a text with the sequence in it.
module _ (shell_index b : ℕ) (pre post rest : List ℕ) (shells : List Shell) (s : Shell)
    (quiet : All (λ c. c ≢ 27) pre) (quiet' : All (λ c. c ≢ 27) post) (near : length pre < 511)
    (g : get_elem? shells shell_index ≡ some s) where
  quiet_erased : All (λ c. c ≢ 27) (pre ++ (erased ++ post))
  quiet_erased =
      All-append (λ c. c ≢ 27) pre (erased ++ post) quiet
        (All-append (λ c. c ≢ 27) erased post (quiet_zeros 8) quiet')

  erase-text :
      erase_escape (b ∷ ((pre ++ (leave_sequence ++ post)) ++ rest)) (length (b ∷ pre))
      ≡ b ∷ ((pre ++ (erased ++ post)) ++ rest)
  erase-text =
      ap (λ l. erase_escape (b ∷ l) (length (b ∷ pre)))
        (append_assoc pre (leave_sequence ++ post) rest)
      ∙ erase_escape_lem (b ∷ pre) (post ++ rest)
      ∙ ap (λ l. b ∷ l) (sym (append_assoc pre (erased ++ post) rest))

  text-leaves :
      escape_loop shell_index
        (length (pre ++ (leave_sequence ++ post)))
        511
        1
        shells
        (b ∷ ((pre ++ (leave_sequence ++ post)) ++ rest))
      ≡ record {
        returned = false;
        shells = set shells shell_index (record s { omit_write = 0 });
        output = b ∷ ((pre ++ (erased ++ post)) ++ rest);
      }
  text-leaves =
      let text = pre ++ (leave_sequence ++ post) in
      let output = b ∷ (text ++ rest) in
      let after = b ∷ ((pre ++ (erased ++ post)) ++ rest) in
      let shells' = set shells shell_index (record s { omit_write = 0 }) in
      let n = length pre in
      let p = length (b ∷ pre) in
      let split : output ≡ (b ∷ pre) ++ (leave_sequence ++ (post ++ rest)) =
        ap (λ l. b ∷ l) (append_assoc pre (leave_sequence ++ post) rest) in
      let (esc, l) = leave-is_escape (b ∷ pre) (post ++ rest) in
      let long : length text ≡ n + 8 + length post =
        omega (arith, length-append pre (leave_sequence ++ post)) in
      let long' : length (pre ++ (erased ++ post)) ≡ n + 8 + length post =
        omega (arith, length-append pre (erased ++ post), length-append erased post) in
      let rounds : 511 ≡ n + suc (510 - n) = omega arith in
      let at : 1 + n ≡ p = omega arith in
      ap (λ (r : ℕ). escape_loop shell_index (length text) r 1 shells output) rounds
      ∙ escape_loop-pass shell_index (length text) n (suc (510 - n)) 1 shells output (omega arith)
          (λ j lo hi.
            rw split
              (quiet_bytes b pre (leave_sequence ++ (post ++ rest)) quiet j lo (omega arith)))
      ∙ ap (λ (q : ℕ). escape_loop shell_index (length text) (suc (510 - n)) q shells output) at
      ∙ escape_loop-leave shell_index (length text) (510 - n) p shells output s (omega arith)
          (rw split esc) (rw split l) g
      ∙ ap (λ o. escape_loop shell_index (length text) (510 - n) (p + 1) shells' o) erase-text
      ∙ escape_loop-silent shell_index (length text) (510 - n) (p + 1) shells' after (omega arith)
          (λ j lo hi.
            quiet_bytes b (pre ++ (erased ++ post)) rest quiet_erased j (omega arith) (omega arith))

finish_write-left :
    (i fd : ℕ) (s : Shell) (text old : List ℕ) (maps : Maps)
    → get_elem? maps.shells i ≡ some s
    → let target : Target = record { shell_index = i; shell = some s; indicator = s.indicator } in
      let end : EscapeEnd = record {
        returned = false;
        shells = set maps.shells i (record s { omit_write = 0 });
        output = specificity_of fd ∷ (text ++ drop (length text) (drop 1 old));
      } in
      let maps' = finish_write true target (length text) end maps in
      (maps'.shells ≡ set maps.shells i (record s { omit_write = 0 }))
      × (maps'.children ≡ maps.children)
      × (maps'.ring_buffer ≡ maps.ring_buffer ++ text_event s.indicator fd text old ∷ [])
unfolding finish_write
finish_write-left i fd s text old maps g =
    let s' : Shell = record s { omit_write = 0 } in
    let maps' : Maps = record maps { shells = set maps.shells i s' } in
    finish_write-silent i fd s' text old maps' (get_elem?-set maps.shells i s s' g)

-- A tracked process writes 1 to 32759 bytes to a terminal that passes for its shell's, the only
-- escape character among them stands within the first 511 bytes and begins the sequence that leaves the alternate screen, and the ring buffer has room. Then the shell is marked
-- as off the alternate screen, whatever it was before, no other entry and no child changes, and one
-- event goes to the shell's indicator with the bytes of the write, the eight of the sequence as zeros.
pub write_leaves_screen :
    (kernel : Kernel) (call : WriteCall) (maps : Maps) (ss : List Shell) (cs : List Child)
    (s : Shell) (pre post : List ℕ)
    (w : ShownWrite kernel call maps ss cs s (pre ++ (leave_sequence ++ post)))
    → kernel.room ≡ true
    → All (λ c. c ≢ 27) pre
    → All (λ c. c ≢ 27) post
    → length pre < 511
    → let maps' = ksys_write kernel call maps in
      (i : ℕ) × (get_elem? maps.shells i ≡ some s)
      × (maps'.shells ≡ set maps.shells i (record s { omit_write = 0 }))
      × (maps'.children ≡ maps.children)
      × (maps'.ring_buffer
          ≡ maps.ring_buffer
            ++ text_event s.indicator call.fd (pre ++ (erased ++ post)) w.scratch.output ∷ [])
write_leaves_screen kernel call maps ss cs s pre post w room quiet quiet' near =
    let (i, g, reached) = ksys_write-shown w in
    let text = pre ++ (leave_sequence ++ post) in
    let target : Target = record { shell_index = i; shell = some s; indicator = s.indicator } in
    let maps' = with_inode (dentry_of kernel w.fd_pos) maps in
    let rest = drop (length text) (drop 1 w.scratch.output) in
    let same : length text ≡ length (pre ++ (erased ++ post)) =
      omega
        (arith, length-append pre (leave_sequence ++ post), length-append pre (erased ++ post)) in
    let loop =
      text-leaves i (specificity_of call.fd) pre post rest maps.shells s quiet quiet' near g in
    let (a, b, c) =
      finish_write-left i call.fd s (pre ++ (erased ++ post)) w.scratch.output maps' g in
    rw (reached, write_output-fills w target maps' refl, loop, room, same) (i, g, a, b, c)
