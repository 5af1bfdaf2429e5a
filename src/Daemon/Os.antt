-- ===== src/Daemon/Os.antt =====
-- What the daemon asks of the system, and the libc functions over texts that it uses.
use nhi.Prelude.{
  ℕ, ◌-◌, List, [], ◌∷◌, ◌++◌, Option, none, some, Bool, true, false, ◌==◌, take, if◌then◌else◌,
}
use nhi.Daemon.Clock.{Timeval}

-- The first line of a pipe or of a file, or which call failed: popen or fopen, or fgets.
pub data Line : Type 0 where
  not_opened not_read : Line
  line : List ℕ → Line

pub record Os : Type 0 where
  -- what the clock shows when it is read for the nth time
  pub now : ℕ → Timeval
  -- popen of a command while __environ is the original one, and its first line
  pub popen_line : List ℕ → Line
  -- popen while __environ is the local environ with these entries, and its first line: an environ of
  -- four entries has no null pointer behind them, and `none` is a fault from reading on
  pub popen_with : List (List ℕ) → List ℕ → Option Line
  -- the first line of a file
  pub file_line : List ℕ → Line
  -- strtol(text, 0, 16), as the bits of a `long`
  pub strtol_16 : List ℕ → ℕ
  -- process_vm_readv of so many bytes at an address: `none` for -1. The caller's buffer is zero
  -- behind what is read.
  pub process_vm_readv : ℕ → ℕ → ℕ → Option (List ℕ)
  -- what an uninitialised `omit_write` on the stack holds
  pub uninitialised : ℕ
  -- how many bytes the compiler leaves unused behind an array that a query is printed into
  pub slack : ℕ
  -- and what stands on the stack behind the end of a text
  pub garbage : List ℕ

-- What fgets(buffer, size, file) leaves of a line.
abbrev pub fgets : ℕ → List ℕ → List ℕ
fgets size bytes = take (size - 1) bytes

-- The text in front of the first NUL.
unfoldable pub c_string : List ℕ → List ℕ
c_string [] = []
c_string (b ∷ bytes) = let rest = c_string bytes in if b == 0 then [] else b ∷ rest

-- What stands behind a prefix.
unfoldable pub strip_prefix : List ℕ → List ℕ → Option (List ℕ)
strip_prefix [] bytes = some bytes
strip_prefix (p ∷ prefix) [] = none
strip_prefix (p ∷ prefix) (b ∷ bytes) = if p == b then strip_prefix prefix bytes else none

-- !strncmp(bytes, prefix, strlen(prefix))
unfoldable pub has_prefix : List ℕ → List ℕ → Bool
unfolding strip_prefix
has_prefix prefix bytes = elim (strip_prefix prefix bytes) [ none ↦ false | some rest ↦ true ]

-- The value of the first entry NAME=value.
unfoldable pub getenv : List ℕ → List (List ℕ) → Option (List ℕ)
unfolding strip_prefix
getenv name [] = none
getenv name (entry ∷ environ) = elim (strip_prefix (name ++ b'=' ∷ []) entry) [
  | some value ↦ some value
  | none ↦ getenv name environ
]
