-- ===== src/Daemon/Environ.antt =====
-- `get_shell_environ_address` and `get_shell_environ` of daemon/src/nhi.c: where the environment of a
-- shell is, and the four variables of it that the daemon needs.
pub mod Found
use nhi.Prelude.{
  ℕ, zero, suc, ◌+◌, ◌-◌, ◌*◌, ◌%◌, ◌^◌, List, [], ◌∷◌, ◌++◌, Option, none, some, Bool, true, false,
  ◌||◌, ◌==◌, length, drop, if◌then◌else◌, codes,
}
use nhi.Common.{
  sigusr1, sigusr2, environ_amount_of_variables, environ_element_size,
  local_environ_amount_of_variables,
}
use nhi.Wire.{read_le}
use nhi.Daemon.Decimal.{decimal}
use nhi.Daemon.Sqlite.{Message}
use nhi.Daemon.Os.{Os, not_opened, not_read, line, fgets, c_string, has_prefix}

-- Any other signal would leave `command` unset; the daemon passes these two alone.
abbrev pub objdump_command : ℕ → List ℕ
objdump_command signum =
    if signum == sigusr1
    then codes
        "objdump -T $(which bash) | awk -v sym=environ ' $NF == sym && $4 == \".bss\"  { print $1; exit }'"
    else if signum == sigusr2
    then codes
        "objdump -T $(which zsh) | awk -v sym=environ ' $NF == sym && $4 == \".bss\"  { print $1; exit }'"
    else []

-- The copy up to the first '-'.
unfoldable pub until_dash : List ℕ → List ℕ
until_dash [] = []
until_dash (c ∷ cs) = let rest = until_dash cs in if c == b'-' then [] else c ∷ rest

abbrev pub long_min : ℕ
long_min = 2 ^ 63

abbrev pub long_max : ℕ
long_max = 2 ^ 63 - 1

-- strtol with its two checks: a number, or the message that is logged before a return of 0.
unfoldable pub checked_strtol : Os → List ℕ → Option ℕ × List Message
checked_strtol os digits =
    let n = os.strtol_16 digits in
    if n == long_min
    then (none, codes "strtol failed with underflow at get_shell_environ_address" ∷ [])
    else if n == long_max
    then (none, codes "strtol failed with overflow at get_shell_environ_address" ∷ [])
    else (some n, [])

-- The second half: the base address of the shell's program, and the sum.
unfoldable pub add_base_address : Os → ℕ → ℕ → ℕ × List Message
unfolding checked_strtol until_dash
add_base_address os shell_pid environ_offset =
    elim (os.file_line (codes "/proc/" ++ (decimal shell_pid ++ codes "/maps"))) [
      | not_opened ↦ (0, codes "fopen at get_shell_environ_address failed" ∷ [])
      | not_read ↦ (0, codes "fgets at get_shell_environ_address failed" ∷ [])
      | line text ↦
          let (base_address, messages) = checked_strtol os (until_dash (fgets 64 text)) in
          elim base_address [
            | none ↦ (0, messages)
            | some base ↦ ((base + environ_offset) % 2 ^ 64, [])
          ]
    ]

-- The address, or 0, and the lines that are logged.
unfoldable pub get_shell_environ_address : Os → ℕ → ℕ → ℕ × List Message
unfolding checked_strtol add_base_address
get_shell_environ_address os shell_pid signum = elim (os.popen_line (objdump_command signum)) [
  | not_opened ↦ (0, codes "popen at get_shell_environ_address failed" ∷ [])
  | not_read ↦ (0, codes "fgets at get_shell_environ_address failed" ∷ [])
  | line text ↦
      let (environ_offset, messages) = checked_strtol os (fgets 32 text) in
      elim environ_offset [
        | none ↦ (0, messages)
        | some offset ↦ add_base_address os shell_pid offset
      ]
]

-- The variables that are kept.
unfoldable pub is_kept : List ℕ → Bool
unfolding has_prefix
is_kept entry =
    has_prefix (codes "PWD") entry
    || (has_prefix (codes "NHI_PS1") entry
        || (has_prefix (codes "NHI_EXIT_STATUS") entry
            || has_prefix (codes "NHI_LAST_EXECUTED_COMMAND") entry))

-- The loop over the addresses of the entries; `found` is the local environ so far, and `j` its length.
unfoldable pub environ_loop :
    (ℕ → Option (List ℕ)) → List ℕ → List (List ℕ) → List (List ℕ) × List Message
unfolding is_kept
environ_loop read [] found = (found, [])
environ_loop read (address ∷ addresses) found = elim (read address) [
  | none ↦ (found, [])
  | some bytes ↦ elim (c_string bytes) [
    | [] ↦ (found, codes "Shell environ is invalid" ∷ [])
    | c ∷ cs ↦ elim (is_kept (c ∷ cs)) [
      | false ↦ environ_loop read addresses found
      | true ↦ elim (length found + 1 == local_environ_amount_of_variables) [
        | true ↦ (found ++ (c ∷ cs) ∷ [], [])
        | false ↦ environ_loop read addresses (found ++ (c ∷ cs) ∷ [])
      ]
    ]
  ]
]

-- The pointers in an array of bytes.
unfoldable pub pointers : ℕ → List ℕ → List ℕ
unfolding read_le
pointers zero bytes = []
pointers (suc n) bytes = read_le 8 bytes ∷ pointers n (drop 8 bytes)

-- The local environment after the call, `none` while there is none, and the lines that are logged.
-- An early return leaves it.
unfoldable pub get_shell_environ :
    Os → ℕ → ℕ → Option (List (List ℕ)) → Option (List (List ℕ)) × List Message
unfolding environ_loop pointers
get_shell_environ os shell_pid shell_environ_address environ =
    let failed = codes "process_vm_readv failed at get_shell_environ" ∷ [] in
    elim (os.process_vm_readv shell_pid shell_environ_address 8) [
      | none ↦ (environ, failed)
      | some pointer ↦
          elim (os.process_vm_readv shell_pid (read_le 8 pointer)
            (8 * environ_amount_of_variables)) [
              | none ↦ (environ, failed)
              | some bytes ↦
                  let (found, messages) =
                    environ_loop
                      (λ address. os.process_vm_readv shell_pid address environ_element_size)
                      (pointers environ_amount_of_variables bytes) [] in
                  (some found, messages)
            ]
    ]
