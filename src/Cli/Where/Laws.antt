-- ===== src/Cli/Where/Laws.antt =====
-- What the conditions of a query say.
use nhi.Prelude.{
  ℕ, ◌^◌, ◌<◌, ◌≤◌, ◌⊎◌, ◌≡◌, ◌≢◌, refl, ◌∙◌, sym, ap, subst, List, [], ◌∷◌, ◌++◌, append-nil,
  arith, Option, none, some, codes, length, length-append, All-append, inl, inr,
}
use nhi.Cli.Text.{ℤ, pos, Result, ok, error}
use nhi.Cli.Text.Laws.{Avoids, split_two, split_three}
use nhi.Cli.Text.Padded.{padded, atoi-padded, padded-Avoids}
use nhi.Cli.Where.{
  Date, number, parse_date, date_where, and_date, get_where, exit_status_where, start_time_where,
}

-- With an exit status to look for, the condition, or the error, is the same for every range of rows: the
-- range has no influence.
pub get_where-exit_status :
    (unix : Date → ℤ) (slice slice' : List ℕ × List ℕ) (start end start' end' : ℤ)
    (indicator status directory before after : List ℕ)
    → status ≢ []
    → get_where unix slice start end indicator status directory before after
      ≡ get_where unix slice' start' end' indicator status directory before after
unfolding get_where exit_status_where
get_where-exit_status unix slice slice' start end start' end' indicator [] directory before after
      h =
    absurd (h refl)
get_where-exit_status unix slice slice' start end start' end' indicator (c ∷ status) directory
      before after h =
    refl

-- A number as it is written: how many zeros stand in front of it, and the number.
abbrev pub Part : Type 0
Part = ℕ × ℕ

abbrev pub part_text : Part → List ℕ
part_text (padding, n) = padded padding n

abbrev pub IsPart : Part → Type 0
IsPart (padding, n) = n < 2 ^ 63

-- A date as it is written: year-month-day hour:minute:second.
pub record WrittenDate : Type 0 where
  pub year : Part
  pub month : Part
  pub day : Part
  pub hour : Part
  pub minute : Part
  pub second : Part

abbrev pub day_text : WrittenDate → List ℕ
day_text w = part_text w.year ++ b'-' ∷ (part_text w.month ++ b'-' ∷ part_text w.day)

abbrev pub time_text : WrittenDate → List ℕ
time_text w = part_text w.hour ++ b':' ∷ (part_text w.minute ++ b':' ∷ part_text w.second)

abbrev pub date_text : WrittenDate → List ℕ
date_text w = day_text w ++ b' ' ∷ time_text w

-- The date that is meant.
abbrev pub meant_date : WrittenDate → Date
meant_date w = record {
  year = pos w.year.1;
  month = pos w.month.1;
  day = pos w.day.1;
  hour = pos w.hour.1;
  minute = pos w.minute.1;
  second = pos w.second.1;
}

pub record IsWrittenDate (w : WrittenDate) : Type 0 where
  pub year : IsPart w.year
  pub month : IsPart w.month
  pub day : IsPart w.day
  pub hour : IsPart w.hour
  pub minute : IsPart w.minute
  pub second : IsPart w.second

part-Avoids : (c : ℕ) (p : Part) → c < 48 ⊎ 58 ≤ c → Avoids c (part_text p)
part-Avoids c p other = padded-Avoids c p.0 p.1 other

day_text-Avoids : (w : WrittenDate) → Avoids b' ' (day_text w)
day_text-Avoids w =
    let part = λ (p : Part). part-Avoids b' ' p (inl (omega arith)) in
    All-append (λ c. c ≢ b' ') (part_text w.year)
      (b'-' ∷ (part_text w.month ++ b'-' ∷ part_text w.day)) (part w.year)
      (
        (λ e. omega arith),
        All-append (λ c. c ≢ b' ') (part_text w.month) (b'-' ∷ part_text w.day) (part w.month)
            ((λ e. omega arith), part w.day),
      )

number-part :
    {A : Type 0} (p : Part) (message : List ℕ) (continue : ℤ → Result A)
    → IsPart p
    → number (part_text p) message continue ≡ continue (pos p.1)
unfolding number
number-part p message continue h = rw (number, atoi-padded p.0 p.1 h) refl

parse_date-date_text :
    (word : List ℕ) (w : WrittenDate)
    → IsWrittenDate w
    → parse_date word (date_text w) ≡ ok (meant_date w)
unfolding parse_date
parse_date-date_text word w h =
    let dash = λ (p : Part). part-Avoids b'-' p (inl (omega arith)) in
    let colon = λ (p : Part). part-Avoids b':' p (inr (omega arith)) in
    rw
      (
        parse_date,
        split_two b' ' (day_text w) (time_text w) (day_text-Avoids w),
        split_three b'-' (part_text w.year) (part_text w.month) (part_text w.day) (dash w.year)
            (dash w.month),
        split_three b':' (part_text w.hour) (part_text w.minute) (part_text w.second) (colon w.hour)
            (colon w.minute),
      )
      (number-part w.year _ _ h.year
        ∙ number-part w.month _ _ h.month
        ∙ number-part w.day _ _ h.day
        ∙ number-part w.hour _ _ h.hour
        ∙ number-part w.minute _ _ h.minute
        ∙ number-part w.second _ _ h.second)

-- An option that is left out, or that has a date.
abbrev pub IsOption : Option WrittenDate → Type 0
IsOption none = Unit
IsOption (some w) = IsWrittenDate w

abbrev pub option_text : Option WrittenDate → List ℕ
option_text none = []
option_text (some w) = date_text w

-- The condition, or nothing in place of a message.
without_message : Result (List ℕ) → List ℕ
without_message (ok clause) = clause
without_message (error message) = []

module _ (unix : Date → ℤ) where
  -- What an option adds to the condition.
  abbrev pub date_clause : List ℕ → Option WrittenDate → List ℕ
  date_clause comparison none = []
  date_clause comparison (some w) = start_time_where comparison (unix (meant_date w))

  date_where-parsed :
      (word comparison s clause : List ℕ) (w : WrittenDate)
      → 0 < length s
      → parse_date word s ≡ ok (meant_date w)
      → date_where unix word comparison s clause ≡ ok (clause ++ date_clause comparison (some w))
  unfolding date_where
  date_where-parsed word comparison [] clause w h e = absurd (omega arith)
  date_where-parsed word comparison (c ∷ s) clause w h e = rw (date_where, e) refl

  length-date_text_some : (w : WrittenDate) → 0 < length (date_text w)
  length-date_text_some w = omega (arith, length-append (day_text w) (b' ' ∷ time_text w))

  date_where-option :
      (word comparison clause : List ℕ) (o : Option WrittenDate)
      → IsOption o
      → date_where unix word comparison (option_text o) clause
        ≡ ok (clause ++ date_clause comparison o)
  unfolding date_where
  date_where-option word comparison clause none h = rw (append-nil clause) refl
  date_where-option word comparison clause (some w) h =
      date_where-parsed word comparison (date_text w) clause w (length-date_text_some w)
        (parse_date-date_text word w h)

  -- Each of the options --before and --after is left out, or has the form year-month-day
  -- hour:minute:second of six numbers below 2^63, each with any number of zeros in front. Then there is
  -- no error, and the condition is the one without these options, followed by a start time below that
  -- of the first date and above that of the second.
  pub get_where-dates :
      (slice : List ℕ × List ℕ) (start end : ℤ) (indicator status directory clause : List ℕ)
      (before after : Option WrittenDate)
      → IsOption before
      → IsOption after
      → get_where unix slice start end indicator status directory [] [] ≡ ok clause
      → get_where unix slice start end indicator status directory
          (option_text before)
          (option_text after)
        ≡ ok ((clause ++ date_clause (codes "<") before) ++ date_clause (codes ">") after)
  unfolding get_where without_message
  get_where-dates slice start end indicator status directory clause before after hb ha undated =
      subst
        (λ c.
          and_date unix (codes "after") (codes ">") (option_text after)
            (date_where unix (codes "before") (codes "<") (option_text before) c)
          ≡ ok ((clause ++ date_clause (codes "<") before) ++ date_clause (codes ">") after))
        (sym (ap without_message undated))
        (rw (date_where-option (codes "before") (codes "<") clause before hb) (
          date_where-option (codes "after") (codes ">") (clause ++ date_clause (codes "<") before)
            after ha))
