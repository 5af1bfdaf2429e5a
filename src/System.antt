-- ===== src/System.antt =====
-- daemon/src/nhi.bpf.c and daemon/src/nhi.c together: what the kernel programs put into the ring buffer
-- and what the daemon makes of it.
mod Sent
mod Printed
mod Shared
mod Tests
use mathlib.Core.List.{flatten}
use nhi.Prelude.{
  ℕ, ◌≡◌, refl, sym, ap, ◌∙◌, subst, List, [], ◌∷◌, ◌++◌, All, All-append_left, All-append_right,
}
use nhi.Common.{Event}
use nhi.Kernel.Maps.{Maps}
use nhi.Kernel.Steps.{Reach}
use nhi.Kernel.Steps.Sent.{AllGiven, Reach-IsSent}
use nhi.Wire.Laws.{IsSent}
use nhi.Daemon.Sqlite.{Sqlite}
use nhi.Daemon.Os.{Os}
use nhi.Daemon.Handlers.{Daemon}
use nhi.Daemon.Main.{main_loop}
use nhi.System.Sent.{All-unflatten}
use nhi.Daemon.Main.Delivery.{rounds_of, still_running, handle_all, main_loop_delivers}

-- Whatever programs run one after the other from the maps as they are created, while all that they are
-- given is within its type, and however the polls divide what is in the ring buffer then: the loop of
-- the daemon handles exactly the events that the programs sent, each as it was sent and in that order,
-- up to a fault of a handler.
pub daemon_follows :
    (sq : Sqlite) (os : Os) {maps : Maps} (r : Reach maps)
    → AllGiven r
    → (batches : List (List Event)) → flatten batches ≡ maps.ring_buffer
    → (d : Daemon sq)
    → main_loop sq os (rounds_of batches) d ≡ still_running (handle_all sq os maps.ring_buffer d)
daemon_follows sq os r given batches e d =
    let sent = All-unflatten batches (subst (All IsSent) (sym e) (Reach-IsSent r given)) in
    main_loop_delivers sq os batches d sent ∙ ap (λ es. still_running (handle_all sq os es d)) e
