-- ===== src/Daemon/Tests/Environ.antt =====
-- `get_shell_environ` of daemon/src/nhi.c for a shell with three variables, of which two are kept.
use nhi.Prelude.{
  ℕ, zero, suc, Bool, true, false, All, ◌≡◌, refl, List, [], ◌∷◌, ◌++◌, Option, none, some, arith,
  take, codes, ◌==◌, if◌then◌else◌,
}
use nhi.Wire.{le_bytes}
use nhi.Daemon.Os.{Os}
use nhi.Daemon.Environ.{get_shell_environ}
use nhi.Daemon.Environ.Found.{Entry, array_of, kept, Environment, IsNonzero, get_shell_environ-kept}
use nhi.Daemon.Tests.Handlers.{os}

abbrev entries : List Entry
entries = (64, codes "PS1=$") ∷ (65, codes "PWD=/") ∷ (66, codes "NHI_PS1=$") ∷ []

abbrev memory_at : ℕ → Option (List ℕ)
memory_at address =
    if address == 4096
    then some (le_bytes 8 8192)
    else if address == 8192
    then some (array_of entries ++ (le_bytes 8 0 ++ []))
    else if address == 64
    then some (codes "PS1=$" ++ 0 ∷ 0 ∷ [])
    else if address == 65
    then some (codes "PWD=/" ++ 0 ∷ [])
    else if address == 66
    then some (codes "NHI_PS1=$" ++ 0 ∷ [])
    else none

abbrev three_variables : Os
three_variables = record os { process_vm_readv = λ pid address size. memory_at address }

abbrev no_nul : List ℕ → Bool
no_nul [] = true
no_nul (zero ∷ s) = false
no_nul (suc b ∷ s) = no_nul s

no_nul-IsNonzero : (s : List ℕ) → no_nul s ≡ true → All IsNonzero s
no_nul-IsNonzero [] h = tt
no_nul-IsNonzero (zero ∷ s) h = absurd (cc h)
no_nul-IsNonzero (suc b ∷ s) h = ((λ e. omega arith), no_nul-IsNonzero s h)

three_variables-Environment : Environment three_variables 300 4096 entries
three_variables-Environment = record {
  array = 8192;
  array_small = omega arith;
  has_array = refl;
  behind = [];
  has_addresses = refl;
  addresses = (omega arith, (omega arith, (omega arith, tt)));
  few = omega arith;
  has_entries = (
    (0 ∷ [], refl, no_nul-IsNonzero (codes "PS1=$") refl, omega arith),
    (
      ([], refl, no_nul-IsNonzero (codes "PWD=/") refl, omega arith),
      (([], refl, no_nul-IsNonzero (codes "NHI_PS1=$") refl, omega arith), tt),
    ),
  );
  null = refl;
}

get_shell_environ-kept_example :
    get_shell_environ three_variables 300 4096 none ≡ (some (take 4 (kept entries)), [])
get_shell_environ-kept_example =
    get_shell_environ-kept three_variables 300 4096 entries none three_variables-Environment
