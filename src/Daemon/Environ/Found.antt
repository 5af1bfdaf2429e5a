-- ===== src/Daemon/Environ/Found.antt =====
-- What `get_shell_environ` of daemon/src/nhi.c finds in the memory of a shell.
use nhi.Prelude.{
  ℕ, zero, suc, ◌+◌, ◌-◌, ◌*◌, ◌^◌, ◌<◌, ◌≤◌, ◌≡◌, ◌≢◌, refl, sym, ap, ◌∙◌, true, false, List, [],
  ◌∷◌, ◌++◌, Option, none, some, arith, append_assoc, append-nil, length, length-append, drop, take,
  take-append, All, map, ◌==◌, ne→==, Bool-cases, inl, inr, if◌then◌else◌,
}
use nhi.Common.{environ_amount_of_variables, environ_element_size}
use nhi.Wire.{le_bytes, read_le}
use nhi.Wire.Laws.{read_le-le_bytes, drop-le_bytes}
use nhi.Daemon.Os.{Os, c_string}
use nhi.Daemon.Sqlite.{Message}
use nhi.Daemon.Environ.{is_kept, environ_loop, pointers, get_shell_environ}

-- An entry of the environment, and where it stands.
abbrev pub Entry : Type 0
Entry = ℕ × List ℕ

abbrev pub IsNonzero : ℕ → Type 0
IsNonzero b = b ≢ 0

-- What is read at its address begins with the entry, which is not empty, and a NUL.
abbrev pub IsEntry : (ℕ → Option (List ℕ)) → Entry → Type 0
IsEntry read (address, text) =
    (rest : List ℕ) × (read address ≡ some (text ++ 0 ∷ rest))
    × All IsNonzero text
    × (1 ≤ length text)

-- The entries that are kept, in their order.
abbrev pub kept : List Entry → List (List ℕ)
kept [] = []
kept ((address, text) ∷ entries) = if is_kept text then text ∷ kept entries else kept entries

abbrev pub address_of : Entry → ℕ
address_of (address, text) = address

c_string-append : (text rest : List ℕ) → All IsNonzero text → c_string (text ++ 0 ∷ rest) ≡ text
unfolding c_string
c_string-append [] rest h = refl
c_string-append (b ∷ text) rest h = rw (ne→== b 0 h.0, c_string-append text rest h.1) refl

take_short {ℓ} : {A : Type ℓ} (n : ℕ) (xs : List A) → length xs ≤ n → xs ≡ take n xs
take_short zero [] h = refl
take_short zero (x ∷ xs) h = absurd (omega arith)
take_short (suc n) [] h = refl
take_short (suc n) (x ∷ xs) h = ap (λ l. x ∷ l) (take_short n xs (omega arith))

module _ (read : ℕ → Option (List ℕ)) where
  loop-skip :
      (address c : ℕ) (cs rest : List ℕ) (addresses : List ℕ) (found : List (List ℕ))
      → read address ≡ some ((c ∷ cs) ++ 0 ∷ rest)
      → All IsNonzero (c ∷ cs)
      → is_kept (c ∷ cs) ≡ false
      → environ_loop read (address ∷ addresses) found ≡ environ_loop read addresses found
  unfolding environ_loop
  loop-skip address c cs rest addresses found e h other =
      rw (environ_loop, e, c_string-append (c ∷ cs) rest h, other) refl

  loop-last :
      (address c : ℕ) (cs rest : List ℕ) (addresses : List ℕ) (found : List (List ℕ))
      → read address ≡ some ((c ∷ cs) ++ 0 ∷ rest)
      → All IsNonzero (c ∷ cs)
      → is_kept (c ∷ cs) ≡ true
      → (length found + 1 == 4) ≡ true
      → environ_loop read (address ∷ addresses) found ≡ (found ++ (c ∷ cs) ∷ [], [])
  unfolding environ_loop
  loop-last address c cs rest addresses found e h keep full =
      rw (environ_loop, e, c_string-append (c ∷ cs) rest h, keep, full) refl

  loop-keep :
      (address c : ℕ) (cs rest : List ℕ) (addresses : List ℕ) (found : List (List ℕ))
      → read address ≡ some ((c ∷ cs) ++ 0 ∷ rest)
      → All IsNonzero (c ∷ cs)
      → is_kept (c ∷ cs) ≡ true
      → (length found + 1 == 4) ≡ false
      → environ_loop read (address ∷ addresses) found
        ≡ environ_loop read addresses (found ++ (c ∷ cs) ∷ [])
  unfolding environ_loop
  loop-keep address c cs rest addresses found e h keep room =
      rw (environ_loop, e, c_string-append (c ∷ cs) rest h, keep, room) refl

  loop-end :
      (null : ℕ) (addresses : List ℕ) (found : List (List ℕ))
      → read null ≡ none
      → environ_loop read (null ∷ addresses) found ≡ (found, [])
  unfolding environ_loop
  loop-end null addresses found e = rw (environ_loop, e) refl

  -- The loop finds the first four, together with those it has.
  entries_found :
      (entries : List Entry) (null : ℕ) (more : List ℕ) (found : List (List ℕ))
      → All (IsEntry read) entries
      → read null ≡ none
      → length found < 4
      → environ_loop read (map address_of entries ++ null ∷ more) found
        ≡ (take 4 (found ++ kept entries), [])
  entries_found [] null more found h end room =
      loop-end null more found end
      ∙ ap (λ (l : List (List ℕ)). (l, []))
          (rw (append-nil found) (take_short 4 found (omega arith)))
  entries_found ((address, []) ∷ entries) null more found h end room = absurd (omega (arith, h.0.3))
  entries_found ((address, c ∷ cs) ∷ entries) null more found h end room =
      let (rest, e, nonzero, some_byte) = h.0 in
      let addresses = map address_of entries ++ null ∷ more in
      elim (Bool-cases (is_kept (c ∷ cs))) [
        | inr other ↦
            loop-skip address c cs rest addresses found e nonzero other
            ∙ entries_found entries null more found h.1 end room
            ∙ rw other refl
        | inl keep ↦ elim (Bool-cases (length found + 1 == 4)) [
          | inl full ↦
              loop-last address c cs rest addresses found e nonzero keep full
              ∙ ap (λ (l : List (List ℕ)). (l, []))
                  (rw keep
                    (sym (take-append found ((c ∷ cs) ∷ kept entries) 1 4 (ground (arith, full)))))
          | inr more_room ↦
              loop-keep address c cs rest addresses found e nonzero keep more_room
              ∙ entries_found entries null more (found ++ (c ∷ cs) ∷ []) h.1 end
                  (ground (arith, length-append found ((c ∷ cs) ∷ [])))
              ∙ rw (keep, append_assoc found ((c ∷ cs) ∷ []) (kept entries)) refl
        ]
      ]

-- The addresses as they stand in memory.
abbrev pub array_of : List Entry → List ℕ
array_of [] = []
array_of ((address, text) ∷ entries) = le_bytes 8 address ++ array_of entries

abbrev pub IsAddress : Entry → Type 0
IsAddress (address, text) = address < 256 ^ 8

pointers-append :
    (entries : List Entry) (bytes : List ℕ) (m n : ℕ)
    → All IsAddress entries
    → n ≡ length entries + m
    → pointers n (array_of entries ++ bytes) ≡ map address_of entries ++ pointers m bytes
unfolding pointers
pointers-append [] bytes m n h e = let e' : n ≡ m = omega arith in rw e' refl
pointers-append ((address, text) ∷ entries) bytes m zero h e = absurd (omega arith)
pointers-append ((address, text) ∷ entries) bytes m (suc n) h e =
    rw
      (
        append_assoc (le_bytes 8 address) (array_of entries) bytes,
        read_le-le_bytes 8 address (array_of entries ++ bytes) h.0,
        drop-le_bytes 8 address (array_of entries ++ bytes),
      )
      (ap (λ (l : List ℕ). address ∷ l) (pointers-append entries bytes m n h.1 (omega arith)))

-- The environment of a process: a pointer to an array of addresses of entries, with a null pointer
-- behind them. Nothing can be read at address 0.
pub record Environment (os : Os) (pid environ_address : ℕ) (entries : List Entry) : Type 0 where
  pub array : ℕ
  pub array_small : array < 256 ^ 8
  pub has_array : os.process_vm_readv pid environ_address 8 ≡ some (le_bytes 8 array)
  pub behind : List ℕ
  pub has_addresses :
      os.process_vm_readv pid array (8 * environ_amount_of_variables)
      ≡ some (array_of entries ++ (le_bytes 8 0 ++ behind))
  pub addresses : All IsAddress entries
  pub few : length entries < environ_amount_of_variables
  pub has_entries :
      All (IsEntry (λ address. os.process_vm_readv pid address environ_element_size)) entries
  pub null : os.process_vm_readv pid 0 environ_element_size ≡ none

addresses_found :
    (read : ℕ → Option (List ℕ)) (entries : List Entry) (behind : List ℕ) (n m : ℕ)
    → All IsAddress entries
    → n ≡ length entries + suc m
    → All (IsEntry read) entries
    → read 0 ≡ none
    → environ_loop read (pointers n (array_of entries ++ (le_bytes 8 0 ++ behind))) []
      ≡ (take 4 (kept entries), [])
unfolding pointers
addresses_found read entries behind n m small count h end =
    let zero_pointer : read_le 8 (le_bytes 8 0 ++ behind) ≡ 0 =
      read_le-le_bytes 8 0 behind (omega arith) in
    let list = pointers-append entries (le_bytes 8 0 ++ behind) (suc m) n small count in
    ap (λ l. environ_loop read l []) list
    ∙ ap
        (λ z.
          environ_loop read
            (map address_of entries ++ z ∷ pointers m (drop 8 (le_bytes 8 0 ++ behind))) [])
        zero_pointer
    ∙ entries_found read entries 0 (pointers m (drop 8 (le_bytes 8 0 ++ behind))) [] h end
        (omega arith)

-- The environment of a process has fewer than 8192 entries, each of them not empty and, with its NUL,
-- within the 512 bytes that are read of it. Then the local environment is the first four of those that
-- are kept, in their order, whatever it was before, and nothing is logged.
pub get_shell_environ-kept :
    (os : Os) (pid environ_address : ℕ) (entries : List Entry) (before : Option (List (List ℕ)))
    → Environment os pid environ_address entries
    → get_shell_environ os pid environ_address before ≡ (some (take 4 (kept entries)), [])
unfolding get_shell_environ
get_shell_environ-kept os pid environ_address entries before e =
    let read : ℕ → Option (List ℕ) =
      λ address. os.process_vm_readv pid address environ_element_size in
    let m = environ_amount_of_variables - suc (length entries) in
    let pointer : read_le 8 (le_bytes 8 e.array) ≡ e.array =
      ap (read_le 8) (sym (append-nil (le_bytes 8 e.array)))
      ∙ read_le-le_bytes 8 e.array [] e.array_small in
    let found =
      addresses_found read entries e.behind environ_amount_of_variables m e.addresses
        (omega (arith, e.few)) e.has_entries e.null in
    rw (get_shell_environ, e.has_array, pointer, e.has_addresses)
      (ap (λ (r : List (List ℕ) × List Message). (some r.0, r.1)) found)
