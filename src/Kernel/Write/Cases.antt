-- ===== src/Kernel/Write/Cases.antt =====
-- The early returns of `ksys_write`, as one rule.
use nhi.Prelude.{
  ℕ, ◌≡◌, some, ◌-◌, ◌%◌, ◌≢◌, arith, get_elem?, ◌==◌, Option-cases, Bool-cases, inl, inr,
}
use nhi.Common.{Shell}
use nhi.Kernel.Maps.{Maps}
use nhi.Kernel.Write.Terminal.{Dentry, same_terminal}
use nhi.Kernel.Write.File.{dentry_at}
use nhi.Kernel.Write.{
  Kernel, WriteCall, Target, with_inode, find_shell_pid, find_target, write_output, write_to_file,
  ksys_write,
}

module _ {ℓ} (P : Maps → Type ℓ) (kernel : Kernel) (call : WriteCall) (maps : Maps) where
  pub write_to_file_cases :
      (target : Target) (shell : Shell)
      → P maps
      → ((dentry : Dentry) → P (with_inode dentry maps))
      → ((dentry : Dentry) → P (write_output kernel call target (with_inode dentry maps)))
      → P (write_to_file kernel call target shell maps)
  unfolding write_to_file
  write_to_file_cases target shell same looked wrote =
      elim (Option-cases (get_elem? maps.fdget_pos_pos 0)) [
        | inl e ↦ rw (write_to_file, e) same
        | inr (fd_pos, e) ↦ elim (Option-cases (get_elem? maps.ksys_write_d_inode 0)) [
          | inl e' ↦ rw (write_to_file, e, e') same
          | inr (d_inode, e') ↦
              let dentry = dentry_at kernel.memory kernel.terminal (fd_pos - fd_pos % 4) in
              elim (Bool-cases (dentry.i_gid == 5)) [
                | inl g ↦ elim (Bool-cases (same_terminal dentry shell)) [
                  | inl s ↦ rw (write_to_file, e, e', g, s) (wrote dentry)
                  | inr s ↦ rw (write_to_file, e, e', g, s) (looked dentry)
                ]
                | inr g ↦ rw (write_to_file, e, e', g) (looked dentry)
              ]
        ]
      ]

  pub ksys_write_cases :
      P maps
      → (call.count ≢ 0
          → (pid : ℕ) (target : Target) (shell : Shell) → find_target pid maps.shells ≡ some target
          → P (write_to_file kernel call target shell maps))
      → P (ksys_write kernel call maps)
  unfolding ksys_write
  ksys_write_cases same wrote = elim (Bool-cases (call.count == 0)) [
    | inl z ↦ rw (ksys_write, z) same
    | inr nz ↦
        elim (Option-cases (find_shell_pid kernel.uninitialised call.current_pid maps.children)) [
          | inl e ↦ rw (ksys_write, nz, e) same
          | inr (pid, e) ↦ elim (Option-cases (find_target pid maps.shells)) [
            | inl e' ↦ rw (ksys_write, nz, e, e') same
            | inr (target, e') ↦ elim (Option-cases target.shell) [
              | inl e'' ↦ rw (ksys_write, nz, e, e', e'') same
              | inr (shell, e'') ↦
                  rw (ksys_write, nz, e, e', e'') (wrote (λ z. ground arith) pid target shell e')
            ]
          ]
        ]
  ]
