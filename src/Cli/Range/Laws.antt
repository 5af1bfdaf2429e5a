-- ===== src/Cli/Range/Laws.antt =====
-- What the ranges of rows mean.
use nhi.Prelude.{
  inr, ℕ, ◌<◌, ◌≡◌, refl, sym, List, [], ◌∷◌, ◌++◌, arith, length, Option, none, some, ◌-◌,
}
use nhi.Daemon.Decimal.{decimal}
use nhi.Cli.Text.{ℤ, pos, ok, itoa}
use nhi.Cli.Text.Laws.{
  IsInt, atoi-itoa, split_two, trim_suffix-append, itoa-Avoids, length-itoa_some, Avoids,
}
use nhi.Cli.Range.{billion, or_default, get_slice_start_end_range, get_start_and_end_range_int}

-- A bound that is written or left out.
abbrev pub written : Option ℤ → List ℕ
written none = []
written (some z) = itoa z

-- A range as it is written: {start:end}.
abbrev pub range_text : Option ℤ → Option ℤ → List ℕ
range_text start end = (b'{' ∷ (written start ++ b':' ∷ written end)) ++ b'}' ∷ []

abbrev pub or_else : ℤ → Option ℤ → ℤ
or_else default none = default
or_else default (some z) = z

abbrev pub IsBound : Option ℤ → Type 0
IsBound none = Unit
IsBound (some z) = IsInt z

or_else-IsInt : (default : ℤ) (o : Option ℤ) → IsInt default → IsBound o → IsInt (or_else default o)
or_else-IsInt default none hd h = hd
or_else-IsInt default (some z) hd h = h

written-Avoids : (o : Option ℤ) → Avoids b':' (written o)
written-Avoids none = tt
written-Avoids (some z) = itoa-Avoids b':' z (omega arith) (inr (omega arith))

or_default_some : (default s : List ℕ) → 0 < length s → or_default default s ≡ s
or_default_some default [] h = absurd (omega arith)
or_default_some default (c ∷ s) h = refl

-- The text of a bound, or of what stands for it, is that of its value.
or_default-written :
    (default : ℤ) (o : Option ℤ) → or_default (itoa default) (written o) ≡ itoa (or_else default o)
or_default-written default none = refl
or_default-written default (some z) = or_default_some (itoa default) (itoa z) (length-itoa_some z)

-- A range in braces whose bounds are integers of 64 bits, each of them written or left out, is taken
-- apart into two texts, which are read as the two integers; 0 and 999999999 stand for a bound that is
-- left out.
pub range_text-read :
    (start end : Option ℤ)
    → IsBound start
    → IsBound end
    → (slice : List ℕ × List ℕ) × (get_slice_start_end_range (range_text start end) ≡ ok slice)
      × (get_start_and_end_range_int slice
          ≡ ok (or_else (pos 0) start, or_else (pos (billion - 1)) end))
unfolding get_slice_start_end_range get_start_and_end_range_int itoa decimal
range_text-read start end hs he =
    let a = or_else (pos 0) start in
    let b = or_else (pos (billion - 1)) end in
    let inner = written start ++ b':' ∷ written end in
    (
      (itoa a, itoa b),
      rw
          (
            get_slice_start_end_range,
            trim_suffix-append b'}' inner,
            split_two b':' (written start) (written end) (written-Avoids start),
          )
          (rw
            (
              sym (or_default-written (pos 0) start),
              sym (or_default-written (pos (billion - 1)) end),
            )
            refl),
      rw
          (
            get_start_and_end_range_int,
            atoi-itoa a (or_else-IsInt (pos 0) start (omega arith) hs),
            atoi-itoa b (or_else-IsInt (pos (billion - 1)) end (omega arith) he),
          )
          refl,
    )
