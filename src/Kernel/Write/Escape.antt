-- ===== src/Kernel/Write/Escape.antt =====
-- The loop in `ksys_write` of daemon/src/nhi.bpf.c over alternate screen escape sequences.
use nhi.Prelude.{ℕ, zero, suc, ◌+◌, Bool, true, false, ◌&&◌, List, none, some, ◌==◌, set}
use nhi.Common.{Shell}
use nhi.Kernel.Maps.{bpf_map_lookup_elem, bpf_map_update_elem}
use nhi.Kernel.Write.Terminal.{byte_at}

-- The first seven bytes of the sequences, ESC [ ? 1 0 4 9.
unfoldable pub is_escape : List ℕ → ℕ → Bool
is_escape output i =
    byte_at output i == 27
    && (byte_at output (i + 1) == b'['
        && (byte_at output (i + 2) == b'?'
            && (byte_at output (i + 3) == b'1'
                && (byte_at output (i + 4) == b'0'
                    && (byte_at output (i + 5) == b'4' && byte_at output (i + 6) == b'9')))))

-- The eight writes of 0.
unfoldable pub erase_escape : List ℕ → ℕ → List ℕ
erase_escape output i =
    set
      (set
        (set (set (set (set (set (set output i 0) (i + 1) 0) (i + 2) 0) (i + 3) 0) (i + 4) 0)
          (i + 5) 0)
        (i + 6) 0)
      (i + 7) 0

-- How the loop ends: by a return, or behind its last round.
pub record EscapeEnd : Type 0 where
  pub returned : Bool
  pub shells : List Shell
  pub output : List ℕ

-- `i` runs from 1 to 511, or to `count`; `rounds` is what is left.
unfoldable pub escape_loop : ℕ → ℕ → ℕ → ℕ → List Shell → List ℕ → EscapeEnd
escape_loop shell_index count zero i shells output = record {
  returned = false;
  shells = shells;
  output = output;
}
escape_loop shell_index count (suc rounds) i shells output = elim (i == count) [
  | true ↦ record { returned = false; shells = shells; output = output }
  | false ↦ elim (is_escape output i) [
    | false ↦ escape_loop shell_index count rounds (i + 1) shells output
    | true ↦ elim (bpf_map_lookup_elem shells shell_index) [
      | none ↦ record { returned = true; shells = shells; output = output }
      | some helper ↦ elim (byte_at output (i + 7) == b'h') [
        | true ↦ record {
          returned = true;
          shells = bpf_map_update_elem shells shell_index (record helper { omit_write = 1 });
          output = output;
        }
        | false ↦ elim (byte_at output (i + 7) == b'l') [
          | true ↦
              escape_loop shell_index count rounds (i + 1)
                (bpf_map_update_elem shells shell_index (record helper { omit_write = 0 }))
                (erase_escape output i)
          | false ↦ escape_loop shell_index count rounds (i + 1) shells output
        ]
      ]
    ]
  ]
]
