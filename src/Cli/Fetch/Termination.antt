-- ===== src/Cli/Fetch/Termination.antt =====
-- Fetch comes to an end.
use nhi.Prelude.{ℕ, zero, suc, ◌+◌, ◌<◌, ◌≡◌, ◌≢◌, refl, List, [], ◌∷◌, All, codes, arith}
use nhi.Cli.Text.{Result, ok, error}
use nhi.Cli.Printing.{Run, out_of_fuel, Fetched}
use nhi.Cli.Printing.Children.{row_children, Agree, Same, print_rows-Same}
use nhi.Cli.Fetch.{Packages, Options, child_options, rows_query, condition_of, print_answer, fetch}

-- The rows of a session name only sessions of a smaller rank, as those that start later are.
abbrev pub IsRanked : Packages → (List ℕ → ℕ) → Type 0
IsRanked packages rank =
    (indicator condition : List ℕ) (rows : List Fetched)
    → packages.query (rows_query indicator condition) ≡ ok rows
    → All (λ row. All (λ child. rank child < rank indicator) (row_children row)) rows

All-map {κ} :
    {A : Type 0} {P Q : A → Type κ} → ((a : A) → P a → Q a) → (xs : List A) → All P xs → All Q xs
All-map f [] h = tt
All-map f (x ∷ xs) h = (f x h.0, All-map f xs h.1)

module _ (packages : Packages) (rank : List ℕ → ℕ) where
  answer-Same :
      (f g : List ℕ → Run) (indicator : List ℕ) (o : Options) (answer : Result (List Fetched))
      → ((rows : List Fetched)
          → answer ≡ ok rows
          → All (λ row. All (Agree f g) (row_children row)) rows)
      → Same
          (print_answer packages f indicator o answer)
          (print_answer packages g indicator o answer)
  unfolding print_answer
  answer-Same f g indicator o (error message) h = (refl, λ e. cc e)
  answer-Same f g indicator o (ok rows) h =
      print_rows-Same packages.match_string o.command_regex o.fetch_child_shells o.stderr_in_red f g
        rows (h rows refl)

  -- With the condition that is asked for.
  condition-Same :
      (n k : ℕ) (indicator range : List ℕ) (o : Options) (condition : Result (List ℕ))
      → condition_of packages indicator range o ≡ condition
      → ((condition : List ℕ)
          → Same
              (print_answer packages
                (λ child. fetch packages n child (codes ":") (child_options o.stderr_in_red))
                indicator
                o
                (packages.query (rows_query indicator condition)))
              (print_answer packages
                (λ child. fetch packages k child (codes ":") (child_options o.stderr_in_red))
                indicator
                o
                (packages.query (rows_query indicator condition))))
      → Same (fetch packages (suc n) indicator range o) (fetch packages (suc k) indicator range o)
  unfolding fetch
  condition-Same n k indicator range o (error message) e h = rw (fetch, e) (refl, λ e. cc e)
  condition-Same n k indicator range o (ok condition) e h = rw (fetch, e) (h condition)

  module _ (ranked : IsRanked packages rank) where
    -- As deep as the rank of the session suffices.
    fetch-Same :
        (n k : ℕ) (indicator range : List ℕ) (o : Options)
        → rank indicator < n
        → rank indicator < k
        → Same (fetch packages n indicator range o) (fetch packages k indicator range o)
    fetch-Same zero k indicator range o hn hk = absurd (omega arith)
    fetch-Same (suc n) zero indicator range o hn hk = absurd (omega arith)
    fetch-Same (suc n) (suc k) indicator range o hn hk =
        let inner = child_options o.stderr_in_red in
        let agree : (child : List ℕ)
            → rank child < rank indicator
            → Agree (λ child. fetch packages n child (codes ":") inner)
                (λ child. fetch packages k child (codes ":") inner) child =
          λ child h.
            fetch-Same n k child (codes ":") inner (omega (arith, h, hn)) (omega (arith, h, hk)) in
        condition-Same n k indicator range o (condition_of packages indicator range o) refl
          (λ condition.
            answer-Same _ _ indicator o (packages.query (rows_query indicator condition)) (λ rows e.
              All-map (λ row. All-map agree (row_children row)) rows
                (ranked indicator condition rows e)))

    -- The rows of each session name only sessions of a smaller rank, as those that start later are. Then
    -- to fetch a session, with any range and options, takes no more calls within each other than one
    -- above its rank: with that fuel it ends on its own, and more fuel changes nothing of what it
    -- prints and of how it ends.
    pub fetch_terminates :
        (fuel more : ℕ) (indicator range : List ℕ) (o : Options)
        → rank indicator < fuel
        → ((fetch packages fuel indicator range o).1 ≢ out_of_fuel)
          × (fetch packages fuel indicator range o ≡ fetch packages (fuel + more) indicator range o)
    fetch_terminates fuel more indicator range o h =
        let same = fetch-Same fuel (fuel + more) indicator range o h (omega (arith, h)) in
        (same.1, same.0)
