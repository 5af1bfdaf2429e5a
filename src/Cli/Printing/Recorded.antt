-- ===== src/Cli/Printing/Recorded.antt =====
-- What the daemon records as the output of a row, and what is printed of it.
use nhi.Prelude.{ℕ, ◌<◌, ◌≡◌, Bool, true, false, List, [], ◌∷◌, ◌++◌, length, replicate, All}
use nhi.Cli.Printing.{Print, to_stdout, to_stderr, Run, and_then, prints, stderr_text, fetch_child}

-- The streams that a process of a session writes to.
pub data Stream : Type 0 where
  stdout stderr : Stream

abbrev pub mark : Stream → ℕ
mark stdout = 255
mark stderr = 254

abbrev pub is_stdout : Stream → Bool
is_stdout stdout = true
is_stdout stderr = false

-- A write, and the indicators of the sessions that were started before the next one.
pub record Written : Type 0 where
  pub stream : Stream
  pub bytes : List ℕ
  pub children : List (List ℕ)

abbrev pub links : List (List ℕ) → List ℕ
links [] = []
links (child ∷ children) = (253 ∷ child) ++ links children

abbrev pub recorded : List Written → List ℕ
recorded [] = []
recorded (w ∷ ws) = (mark w.stream ∷ w.bytes) ++ (links w.children ++ recorded ws)

-- Bytes that are not taken for one of the three marks.
abbrev pub IsPlain : ℕ → Type 0
IsPlain c = c < 253

-- As many bytes as there are digits in an indicator.
abbrev pub IsChild : List ℕ → Type 0
IsChild child = length child ≡ 11

abbrev pub IsWritten : Written → Type 0
IsWritten w = All IsPlain w.bytes × All IsChild w.children

-- The indicator of a child leaves eleven zeros in the output.
abbrev pub blanks : List (List ℕ) → List ℕ
blanks [] = []
blanks (child ∷ children) = replicate 11 0 ++ blanks children

module _ (stderr_in_red fetch_child_shells : Bool) (fetch : List ℕ → Run) where
  -- The children of a write, one after the other.
  abbrev pub fetch_children : List (List ℕ) → Run
  fetch_children [] = prints []
  fetch_children (child ∷ children) =
      and_then (fetch_child stderr_in_red fetch_child_shells fetch child) (fetch_children children)

  -- What a write prints: nothing where it is empty.
  abbrev pub shown : Stream → List ℕ → List Print
  shown s [] = []
  shown stdout (c ∷ cs) = to_stdout (c ∷ cs) ∷ []
  shown stderr (c ∷ cs) = to_stderr (stderr_text stderr_in_red (c ∷ cs)) ∷ []

  -- The children of a write are printed before its bytes.
  abbrev pub shown_all : List Written → Run
  shown_all [] = prints []
  shown_all (w ∷ ws) =
      and_then (fetch_children w.children)
        (and_then (prints (shown w.stream (w.bytes ++ blanks w.children))) (shown_all ws))
