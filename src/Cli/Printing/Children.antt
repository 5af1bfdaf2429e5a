-- ===== src/Cli/Printing/Children.antt =====
-- The sessions that an output names, and that printing it depends on no other session.
use nhi.Prelude.{
  ℕ, zero, suc, ◌≡◌, ◌≢◌, refl, sym, subst, ◌∙◌, Bool, true, false, List, [], ◌∷◌, ◌++◌, length,
  take, All, ltb, inl, inr, Bool-cases,
}
use nhi.Cli.Printing.{
  Print, to_stdout, Run, returned, failed, panicked, out_of_fuel, and_then, prints, Buffers, Kind,
  no_output, flush, append_byte, kind, plain, stdout_mark, stderr_mark, link, overwrite,
  fetch_child, print_bytes, print_output, Fetched, scanned, is_match, print_row, print_scanned,
  print_rows,
}
use nhi.Cli.Printing.Steps.{
  loop, loop-plain, loop-stdout_mark, loop-stderr_mark, loop-link, loop-link_cut,
}

-- The indicators behind the marks, those that are overwritten left out.
unfoldable pub children_of : ℕ → List ℕ → List (List ℕ)
unfolding kind overwrite
children_of zero cells = []
children_of (suc n) [] = []
children_of (suc n) (c ∷ cells) = elim (kind c) [
  | link ↦ take 11 cells ∷ children_of n (overwrite 11 cells)
  | _ ↦ children_of n cells
]

abbrev children_from : Kind → ℕ → List ℕ → List (List ℕ)
children_from link n cells = take 11 cells ∷ children_of n (overwrite 11 cells)
children_from plain n cells = children_of n cells
children_from stdout_mark n cells = children_of n cells
children_from stderr_mark n cells = children_of n cells

children_of-kind :
    (n c : ℕ) (cells : List ℕ) (k : Kind)
    → kind c ≡ k
    → children_of (suc n) (c ∷ cells) ≡ children_from k n cells
unfolding children_of
children_of-kind n c cells plain e = rw (children_of, e) refl
children_of-kind n c cells stdout_mark e = rw (children_of, e) refl
children_of-kind n c cells stderr_mark e = rw (children_of, e) refl
children_of-kind n c cells link e = rw (children_of, e) refl

abbrev pub IsFinished : Run → Type 0
IsFinished r = r.1 ≢ out_of_fuel

and_then-IsFinished : (a b : Run) → IsFinished a → IsFinished b → IsFinished (and_then a b)
and_then-IsFinished (ps, returned) b ha hb = hb
and_then-IsFinished (ps, failed m) b ha hb = ha
and_then-IsFinished (ps, panicked) b ha hb = ha
and_then-IsFinished (ps, out_of_fuel) b ha hb = ha

returned-IsFinished : returned ≢ out_of_fuel
returned-IsFinished e = cc e

-- Two ways to fetch do the same for a session, and come to an end.
abbrev pub Agree : (List ℕ → Run) → (List ℕ → Run) → List ℕ → Type 0
Agree f g child = (f child ≡ g child) × IsFinished (f child)

abbrev pub Same : Run → Run → Type 0
Same r s = (r ≡ s) × IsFinished r

Same-and_then : (a b c d : Run) → Same a b → Same c d → Same (and_then a c) (and_then b d)
Same-and_then a b c d h h' = (rw (h.0, h'.0) refl, and_then-IsFinished a c h.1 h'.1)

Same-by : {a b c d : Run} → a ≡ c → b ≡ d → Same c d → Same a b
Same-by e e' h = (e ∙ h.0 ∙ sym e', subst IsFinished (sym e) h.1)

prints-Same : (ps : List Print) → Same (prints ps) (prints ps)
prints-Same ps = (refl, returned-IsFinished)

module _ (stderr_in_red fetch_child_shells : Bool) (f g : List ℕ → Run) where
  fetch_child-Same :
      (child : List ℕ)
      → Agree f g child
      → Same
          (fetch_child stderr_in_red fetch_child_shells f child)
          (fetch_child stderr_in_red fetch_child_shells g child)
  fetch_child-Same child h = elim (Bool-cases fetch_child_shells) [
    | inl shells ↦ rw shells h
    | inr parent ↦ rw parent (prints-Same [])
  ]

  abbrev AreSame : ℕ → List ℕ → Buffers → Type 0
  AreSame n cells b =
      Same (loop stderr_in_red fetch_child_shells f n cells b)
        (loop stderr_in_red fetch_child_shells g n cells b)

  -- One byte, by what it is.
  byte-Same :
      (n c : ℕ) (cells : List ℕ) (b : Buffers) (k : Kind)
      → kind c ≡ k
      → ((cells' : List ℕ) (b' : Buffers)
          → All (Agree f g) (children_of n cells')
          → AreSame n cells' b')
      → All (Agree f g) (children_from k n cells)
      → AreSame (suc n) (c ∷ cells) b
  byte-Same n c cells b plain e next h =
      Same-by (loop-plain stderr_in_red fetch_child_shells f n c cells b e)
        (loop-plain stderr_in_red fetch_child_shells g n c cells b e)
        (next cells (append_byte c b) h)
  byte-Same n c cells b stdout_mark e next h =
      let b' : Buffers = record (flush stderr_in_red b).1 { write_stdout = true } in
      Same-by (loop-stdout_mark stderr_in_red fetch_child_shells f n c cells b e)
        (loop-stdout_mark stderr_in_red fetch_child_shells g n c cells b e)
        (Same-and_then _ _ _ _ (prints-Same (flush stderr_in_red b).0) (next cells b' h))
  byte-Same n c cells b stderr_mark e next h =
      let b' : Buffers = record (flush stderr_in_red b).1 { write_stdout = false } in
      Same-by (loop-stderr_mark stderr_in_red fetch_child_shells f n c cells b e)
        (loop-stderr_mark stderr_in_red fetch_child_shells g n c cells b e)
        (Same-and_then _ _ _ _ (prints-Same (flush stderr_in_red b).0) (next cells b' h))
  byte-Same n c cells b link e next h = elim (Bool-cases (ltb (length cells) 11)) [
    | inl short ↦
        Same-by (loop-link_cut stderr_in_red fetch_child_shells f n c cells b e short)
          (loop-link_cut stderr_in_red fetch_child_shells g n c cells b e short) (refl, λ e'. cc e')
    | inr long ↦
        Same-by (loop-link stderr_in_red fetch_child_shells f n c cells b e long)
          (loop-link stderr_in_red fetch_child_shells g n c cells b e long)
          (Same-and_then _ _ _ _ (fetch_child-Same (take 11 cells) h.0)
            (next (overwrite 11 cells) b h.1))
  ]

  bytes-Same :
      (n : ℕ) (cells : List ℕ) (b : Buffers)
      → All (Agree f g) (children_of n cells)
      → AreSame n cells b
  unfolding print_bytes
  bytes-Same zero cells b h = prints-Same (flush stderr_in_red b).0
  bytes-Same (suc n) [] b h = prints-Same (flush stderr_in_red b).0
  bytes-Same (suc n) (c ∷ cells) b h =
      byte-Same n c cells b (kind c) refl (λ cells' b' h'. bytes-Same n cells' b' h')
        (subst (All (Agree f g)) (children_of-kind n c cells (kind c) refl) h)

-- The sessions that a row names.
abbrev pub row_children : Fetched → List (List ℕ)
row_children row = children_of (length row.output) (row.output ++ row.spare)

module _ (match_string : List ℕ → List ℕ → Bool) (command_regex : List ℕ)
    (fetch_child_shells stderr_in_red : Bool) (f g : List ℕ → Run) where
  print_scanned-Same :
      (texts : List ℕ × List ℕ) (row : Fetched)
      → All (Agree f g) (row_children row)
      → Same
          (print_scanned match_string command_regex fetch_child_shells stderr_in_red f texts row)
          (print_scanned match_string command_regex fetch_child_shells stderr_in_red g texts row)
  unfolding print_row print_output
  print_scanned-Same (ps1, []) row h = prints-Same []
  print_scanned-Same (ps1, c ∷ command) row h =
      elim (Bool-cases (is_match match_string command_regex (c ∷ command))) [
        | inl matched ↦
            rw (print_scanned, matched)
              (Same-and_then _ _ _ _
                (prints-Same (to_stdout ps1 ∷ to_stdout ((c ∷ command) ++ 10 ∷ []) ∷ []))
                (bytes-Same stderr_in_red fetch_child_shells f g (length row.output)
                  (row.output ++ row.spare) no_output h))
        | inr other ↦ rw (print_scanned, other) (prints-Same [])
      ]

  -- The same is printed where the sessions that the rows name are fetched the same way.
  pub print_rows-Same :
      (rows : List Fetched)
      → All (λ row. All (Agree f g) (row_children row)) rows
      → Same
          (print_rows match_string command_regex fetch_child_shells stderr_in_red f rows)
          (print_rows match_string command_regex fetch_child_shells stderr_in_red g rows)
  unfolding print_rows
  print_rows-Same [] h = prints-Same []
  print_rows-Same (row ∷ rows) h =
      Same-and_then _ _ _ _ (print_scanned-Same (scanned row) row h.0) (print_rows-Same rows h.1)
