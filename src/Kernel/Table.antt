-- ===== src/Kernel/Table.antt =====
-- The array maps `shells` and `children` of daemon/src/nhi.bpf.c as tables: the entries that are
-- taken stand first, with distinct pids, and zero entries fill the rest.
pub mod Lookup
pub mod Swap
pub mod Removal
pub mod Update
use nhi.Prelude.{
  ℕ, ◌+◌, ◌≤◌, ◌≡◌, List, [], ◌∷◌, ◌++◌, Option, none, some, length, replicate, All, ◌==◌,
  if◌then◌else◌, map, Nodup,
}
use nhi.Kernel.Scan.Laws.{IsUsed}

module _ {ℓ} {A : Type ℓ} (pid_of : A → ℕ) where
  -- The entry of a process.
  unfoldable pub find_pid : ℕ → List A → Option A
  find_pid pid [] = none
  find_pid pid (x ∷ xs) = if pid_of x == pid then some x else find_pid pid xs

  -- The entries of all other processes.
  unfoldable pub others : ℕ → List A → List A
  others pid [] = []
  others pid (x ∷ xs) = if pid_of x == pid then others pid xs else x ∷ others pid xs

  -- The map of `size` entries holds exactly the entries `xs`, and `spare` free ones behind them.
  pub record IsTable (empty : A) (size : ℕ) (map_ xs : List A) : Type ℓ where
    pub spare : ℕ
    pub layout : map_ ≡ xs ++ replicate spare empty
    pub total : length xs + spare ≡ size
    pub used : All (IsUsed pid_of) xs
    pub distinct : Nodup (map pid_of xs)
