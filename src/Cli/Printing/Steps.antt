-- ===== src/Cli/Printing/Steps.antt =====
-- The steps of the loop over an output.
use nhi.Prelude.{
  ℕ, suc, ◌<◌, ◌≡◌, refl, ap, Bool, true, false, List, [], ◌∷◌, append_assoc, arith, length, take,
  ltb,
}
use nhi.Cli.Printing.{
  Run, returned, failed, panicked, out_of_fuel, and_then, prints, Buffers, flush, append_byte, kind,
  plain, stdout_mark, stderr_mark, link, overwrite, fetch_child, print_bytes,
}

pub and_then_assoc : (a b c : Run) → and_then (and_then a b) c ≡ and_then a (and_then b c)
and_then_assoc (ps, returned) (qs, returned) c = ap (λ l. (l, c.1)) (append_assoc ps qs c.0)
and_then_assoc (ps, returned) (qs, failed m) c = refl
and_then_assoc (ps, returned) (qs, panicked) c = refl
and_then_assoc (ps, returned) (qs, out_of_fuel) c = refl
and_then_assoc (ps, failed m) b c = refl
and_then_assoc (ps, panicked) b c = refl
and_then_assoc (ps, out_of_fuel) b c = refl

pub kind_plain : (c : ℕ) → c < 253 → kind c ≡ plain
unfolding kind
kind_plain c h = ground arith

module _ (stderr_in_red fetch_child_shells : Bool) (fetch : List ℕ → Run) where
  abbrev pub loop : ℕ → List ℕ → Buffers → Run
  loop = print_bytes stderr_in_red fetch_child_shells fetch

  pub loop-plain :
      (n c : ℕ) (cells : List ℕ) (b : Buffers)
      → kind c ≡ plain
      → loop (suc n) (c ∷ cells) b ≡ loop n cells (append_byte c b)
  unfolding print_bytes
  loop-plain n c cells b e = rw (print_bytes, e) refl

  pub loop-stdout_mark :
      (n c : ℕ) (cells : List ℕ) (b : Buffers)
      → kind c ≡ stdout_mark
      → loop (suc n) (c ∷ cells) b
        ≡ and_then
            (prints (flush stderr_in_red b).0)
            (loop n cells (record (flush stderr_in_red b).1 { write_stdout = true }))
  unfolding print_bytes
  loop-stdout_mark n c cells b e = rw (print_bytes, e) refl

  pub loop-stderr_mark :
      (n c : ℕ) (cells : List ℕ) (b : Buffers)
      → kind c ≡ stderr_mark
      → loop (suc n) (c ∷ cells) b
        ≡ and_then
            (prints (flush stderr_in_red b).0)
            (loop n cells (record (flush stderr_in_red b).1 { write_stdout = false }))
  unfolding print_bytes
  loop-stderr_mark n c cells b e = rw (print_bytes, e) refl

  pub loop-link :
      (n c : ℕ) (cells : List ℕ) (b : Buffers)
      → kind c ≡ link
      → ltb (length cells) 11 ≡ false
      → loop (suc n) (c ∷ cells) b
        ≡ and_then
            (fetch_child stderr_in_red fetch_child_shells fetch (take 11 cells))
            (loop n (overwrite 11 cells) b)
  unfolding print_bytes
  loop-link n c cells b e long = rw (print_bytes, e, long) refl

  pub loop-link_cut :
      (n c : ℕ) (cells : List ℕ) (b : Buffers)
      → kind c ≡ link
      → ltb (length cells) 11 ≡ true
      → loop (suc n) (c ∷ cells) b ≡ ([], panicked)
  unfolding print_bytes
  loop-link_cut n c cells b e short = rw (print_bytes, e, short) refl
