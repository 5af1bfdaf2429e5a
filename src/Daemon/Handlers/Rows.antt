-- ===== src/Daemon/Handlers/Rows.antt =====
-- What the daemon does to the rows of a session, as operations of their own: the specification of
-- the handlers of daemon/src/nhi.c.
use nhi.Prelude.{
  ℕ, ◌≡◌, refl, ap, ◌∙◌, List, [], ◌∷◌, ◌++◌, some, Bool-cases, inl, inr, ◌==◌, if◌then◌else◌,
  arith,
}
use nhi.Daemon.Store.{Row, Store, empty_row, update_last, in_table}

-- The end of a command, and the prompt that follows it.
abbrev pub complete : List ℕ → List ℕ → ℕ → ℕ → Row → Row
complete command exit_status finish_time indicator r = record r {
  command = some command;
  exit_status = some exit_status;
  finish_time = some finish_time;
  indicator = some indicator;
}

abbrev pub prompt_row : List ℕ → List ℕ → Row
prompt_row ps1 pwd = record empty_row { ps1 = some ps1; pwd = some pwd }

pub update_last-snoc :
    (f : Row → Row) (rows : List Row) (r : Row) → update_last f (rows ++ r ∷ []) ≡ rows ++ f r ∷ []
unfolding update_last
update_last-snoc f [] r = refl
update_last-snoc f (x ∷ []) r = refl
update_last-snoc f (x ∷ y ∷ rows) r = ap (λ l. x ∷ l) (update_last-snoc f (y ∷ rows) r)

-- The rows of one session, set to something else.
unfoldable pub with_rows : ℕ → List Row → Store → Store
with_rows i rows s = record s { tables = λ j. if j == i then some rows else s.tables j }

pub tables-with_rows :
    (i : ℕ) (rows : List Row) (s : Store) → (with_rows i rows s).tables i ≡ some rows
unfolding with_rows
tables-with_rows i rows s = ground arith

-- A change of the rows, where the table is there.
pub in_table-with_rows :
    (i : ℕ) (f : List Row → List Row) (rows : List Row) (s : Store)
    → in_table i f (with_rows i rows s) ≡ with_rows i (f rows) s
unfolding in_table with_rows
in_table-with_rows i f rows s =
    let same : (j : ℕ)
        → (in_table i f (with_rows i rows s)).tables j ≡ (with_rows i (f rows) s).tables j =
      λ j. elim (Bool-cases (j == i)) [ inl e ↦ rw e refl | inr e ↦ rw e refl ] in
    λ k. record { tables = λ j. same j k; meta = s.meta }

pub with_rows-same :
    (i : ℕ) (rows : List Row) (s : Store) → s.tables i ≡ some rows → s ≡ with_rows i rows s
unfolding with_rows
with_rows-same i rows s e =
    let same : (j : ℕ) → s.tables j ≡ (with_rows i rows s).tables j = λ j. ground arith in
    λ k. record { tables = λ j. same j k; meta = s.meta }

-- A change of the last row.
pub update-with_rows :
    (i : ℕ) (f : Row → Row) (rows : List Row) (r : Row) (s : Store)
    → in_table i (update_last f) (with_rows i (rows ++ r ∷ []) s) ≡ with_rows i (rows ++ f r ∷ []) s
update-with_rows i f rows r s =
    in_table-with_rows i (update_last f) (rows ++ r ∷ []) s
    ∙ ap (λ l. with_rows i l s) (update_last-snoc f rows r)
