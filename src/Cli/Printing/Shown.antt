-- ===== src/Cli/Printing/Shown.antt =====
-- What print_output prints of an output that the daemon has recorded.
use nhi.Prelude.{
  ℕ, zero, suc, ◌+◌, ◌≡◌, refl, sym, subst, ap, ◌∙◌, Bool, true, false, List, [], ◌∷◌, ◌++◌,
  append_assoc, append_snoc, append-nil, arith, length, length-append, take, take-append, replicate,
  All, ltb,
}
use nhi.Cli.Printing.{
  Run, and_then, prints, Buffers, no_output, flush, append_byte, kind, overwrite, fetch_child,
  print_bytes, print_output,
}
use nhi.Cli.Printing.Steps.{
  and_then_assoc, kind_plain, loop, loop-plain, loop-stdout_mark, loop-stderr_mark, loop-link,
}
use nhi.Cli.Printing.Recorded.{
  Stream, stdout, stderr, mark, is_stdout, Written, links, recorded, IsPlain, IsChild, IsWritten,
  blanks, fetch_children, shown, shown_all,
}

-- Only the buffer of one stream, which is written to, is filled.
abbrev only : Stream → List ℕ → Buffers
only stdout bytes = record { stdout_output = bytes; stderr_output = []; write_stdout = true }
only stderr bytes = record { stdout_output = []; stderr_output = bytes; write_stdout = false }

append_byte-only :
    (s : Stream) (c : ℕ) (bytes : List ℕ) → append_byte c (only s bytes) ≡ only s (bytes ++ c ∷ [])
append_byte-only stdout c bytes = refl
append_byte-only stderr c bytes = refl

overwrite-append :
    (child cells : List ℕ)
    → overwrite (length child) (child ++ cells) ≡ replicate (length child) 0 ++ cells
unfolding overwrite
overwrite-append [] cells = refl
overwrite-append (c ∷ child) cells = ap (λ (l : List ℕ). 0 ∷ l) (overwrite-append child cells)

take_prefix : (child cells : List ℕ) → IsChild child → take 11 (child ++ cells) ≡ child
take_prefix child cells e = take-append child cells 0 11 (omega (arith, e)) ∙ append-nil child

overwrite_prefix :
    (child cells : List ℕ) → IsChild child → overwrite 11 (child ++ cells) ≡ replicate 11 0 ++ cells
overwrite_prefix child cells e =
    subst (λ n. overwrite n (child ++ cells) ≡ replicate n 0 ++ cells) e
      (overwrite-append child cells)

replicate-IsPlain : (n : ℕ) → All IsPlain (replicate n 0)
replicate-IsPlain zero = tt
replicate-IsPlain (suc n) = (omega arith, replicate-IsPlain n)

module _ (stderr_in_red fetch_child_shells : Bool) (fetch : List ℕ → Run) where
  abbrev turn : ℕ → List ℕ → Buffers → Run
  turn = loop stderr_in_red fetch_child_shells fetch

  loop_mark :
      (s : Stream) (n : ℕ) (cells : List ℕ) (b : Buffers)
      → turn (suc n) (mark s ∷ cells) b
        ≡ and_then
            (prints (flush stderr_in_red b).0)
            (turn n cells (record (flush stderr_in_red b).1 { write_stdout = is_stdout s }))
  unfolding kind
  loop_mark stdout n cells b =
      loop-stdout_mark stderr_in_red fetch_child_shells fetch n 255 cells b refl
  loop_mark stderr n cells b =
      loop-stderr_mark stderr_in_red fetch_child_shells fetch n 254 cells b refl

  loop_link :
      (n : ℕ) (child cells : List ℕ) (b : Buffers)
      → IsChild child
      → turn (suc n) (253 ∷ (child ++ cells)) b
        ≡ and_then
            (fetch_child stderr_in_red fetch_child_shells fetch child)
            (turn n (replicate 11 0 ++ cells) b)
  unfolding kind
  loop_link n child cells b e =
      let long : ltb (length (child ++ cells)) 11 ≡ false =
        ground (arith, length-append child cells, e) in
      loop-link stderr_in_red fetch_child_shells fetch n 253 (child ++ cells) b refl long
      ∙ rw (take_prefix child cells e, overwrite_prefix child cells e) refl

  bytes_shown :
      (s : Stream) (bytes cells seen : List ℕ) (n m : ℕ)
      → All IsPlain bytes
      → n ≡ length bytes + m
      → turn n (bytes ++ cells) (only s seen) ≡ turn m cells (only s (seen ++ bytes))
  bytes_shown s [] cells seen n m h e =
      let e' : n ≡ m = omega arith in rw (e', append-nil seen) refl
  bytes_shown s (c ∷ bytes) cells seen zero m h e = absurd (omega arith)
  bytes_shown s (c ∷ bytes) cells seen (suc n) m h e =
      loop-plain stderr_in_red fetch_child_shells fetch n c (bytes ++ cells) (only s seen)
        (kind_plain c h.0)
      ∙ rw (append_byte-only s c seen, append_snoc seen c bytes)
          (bytes_shown s bytes cells (seen ++ c ∷ []) n m h.1 (omega arith))

  flush-only :
      (s : Stream) (seen : List ℕ)
      → flush stderr_in_red (only s seen)
        ≡ (shown stderr_in_red fetch_child_shells fetch s seen, only s [])
  unfolding flush
  flush-only stdout [] = refl
  flush-only stdout (c ∷ cs) = refl
  flush-only stderr [] = refl
  flush-only stderr (c ∷ cs) = refl

  turned : (s t : Stream) → record (only s []) { write_stdout = is_stdout t } ≡ only t []
  turned stdout stdout = refl
  turned stdout stderr = refl
  turned stderr stdout = refl
  turned stderr stderr = refl

  mark-shown :
      (s t : Stream) (n : ℕ) (cells seen : List ℕ)
      → turn (suc n) (mark t ∷ cells) (only s seen)
        ≡ and_then
            (prints (shown stderr_in_red fetch_child_shells fetch s seen))
            (turn n cells (only t []))
  mark-shown s t n cells seen =
      loop_mark t n cells (only s seen) ∙ rw (flush-only s seen, turned s t) refl

  links_shown :
      (s : Stream) (children : List (List ℕ)) (cells seen : List ℕ) (n m : ℕ)
      → All IsChild children
      → n ≡ length (links children) + m
      → turn n (links children ++ cells) (only s seen)
        ≡ and_then
            (fetch_children stderr_in_red fetch_child_shells fetch children)
            (turn m cells (only s (seen ++ blanks children)))
  links_shown s [] cells seen n m h e =
      let e' : n ≡ m = omega arith in rw (e', append-nil seen) refl
  links_shown s (child ∷ children) cells seen zero m h e = absurd (omega arith)
  links_shown s (child ∷ children) cells seen (suc n) m h e =
      let zeros : List ℕ = replicate 11 0 in
      let rest = length (links children) + m in
      let count : n ≡ length zeros + rest =
        omega (arith, length-append child (links children), h.0) in
      ap (λ l. turn (suc n) (253 ∷ l) (only s seen)) (append_assoc child (links children) cells)
      ∙ loop_link n child (links children ++ cells) (only s seen) h.0
      ∙ ap (and_then (fetch_child stderr_in_red fetch_child_shells fetch child)) (
          bytes_shown s zeros (links children ++ cells) seen n rest (replicate-IsPlain 11) count
          ∙ links_shown s children cells (seen ++ zeros) rest m h.1 refl
          ∙ rw (append_assoc seen zeros (blanks children)) refl)
      ∙ sym (
          and_then_assoc (fetch_child stderr_in_red fetch_child_shells fetch child)
            (fetch_children stderr_in_red fetch_child_shells fetch children)
            (turn m cells (only s (seen ++ blanks (child ∷ children)))))

  writes_shown :
      (ws : List Written) (s : Stream) (seen spare : List ℕ) (n : ℕ)
      → All IsWritten ws
      → n ≡ length (recorded ws)
      → turn n (recorded ws ++ spare) (only s seen)
        ≡ and_then
            (prints (shown stderr_in_red fetch_child_shells fetch s seen))
            (shown_all stderr_in_red fetch_child_shells fetch ws)
  unfolding print_bytes
  writes_shown [] s seen spare zero h e =
      rw (flush-only s seen, append-nil (shown stderr_in_red fetch_child_shells fetch s seen)) refl
  writes_shown [] s seen spare (suc n) h e = absurd (omega arith)
  writes_shown (w ∷ ws) s seen spare zero h e = absurd (omega arith)
  writes_shown (w ∷ ws) s seen spare (suc n) h e =
      let after = length (links w.children ++ recorded ws) in
      let count : n ≡ length w.bytes + after =
        omega (arith, length-append w.bytes (links w.children ++ recorded ws)) in
      let step =
        bytes_shown w.stream w.bytes ((links w.children ++ recorded ws) ++ spare) [] n after h.0.0
          count in
      let next =
        links_shown w.stream w.children (recorded ws ++ spare) w.bytes after (length (recorded ws))
          h.0.1 (length-append (links w.children) (recorded ws)) in
      let last =
        writes_shown ws w.stream (w.bytes ++ blanks w.children) spare (length (recorded ws)) h.1
          refl in
      mark-shown s w.stream n ((w.bytes ++ (links w.children ++ recorded ws)) ++ spare) seen
      ∙ ap (and_then (prints (shown stderr_in_red fetch_child_shells fetch s seen))) (
          ap (λ l. turn n l (only w.stream []))
            (append_assoc w.bytes (links w.children ++ recorded ws) spare)
          ∙ step
          ∙ ap (λ l. turn after l (only w.stream w.bytes))
              (append_assoc (links w.children) (recorded ws) spare)
          ∙ next
          ∙ ap (and_then (fetch_children stderr_in_red fetch_child_shells fetch w.children)) last)

  -- The output of a row holds, behind the links to the sessions that were started before its first
  -- write, the writes with the sessions started after each; bytes of the writes are below 253 and
  -- indicators have eleven digits. Then printing it fetches each of these sessions once, in order and
  -- where this is asked for, and gives the bytes of each write that is not empty to its own stream, in
  -- order, followed by eleven zeros for each session that was started behind it; a session is printed
  -- before the write that it follows. An error of a session ends it all.
  pub print_output-recorded :
      (leading : List (List ℕ)) (ws : List Written) (spare : List ℕ)
      → All IsChild leading
      → All IsWritten ws
      → print_output stderr_in_red fetch_child_shells fetch (links leading ++ recorded ws) spare
        ≡ and_then (fetch_children stderr_in_red fetch_child_shells fetch leading) (
            and_then
              (prints (shown stderr_in_red fetch_child_shells fetch stderr (blanks leading)))
              (shown_all stderr_in_red fetch_child_shells fetch ws))
  unfolding print_output
  print_output-recorded leading ws spare hl hw =
      ap (λ l. turn (length (links leading ++ recorded ws)) l no_output)
        (append_assoc (links leading) (recorded ws) spare)
      ∙ links_shown stderr leading (recorded ws ++ spare) [] (length (links leading ++ recorded ws))
          (length (recorded ws)) hl (length-append (links leading) (recorded ws))
      ∙ ap (and_then (fetch_children stderr_in_red fetch_child_shells fetch leading))
          (writes_shown ws stderr (blanks leading) spare (length (recorded ws)) hw refl)
