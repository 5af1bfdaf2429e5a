-- ===== src/Daemon/Main/Delivery.antt =====
-- The records on their way from the ring buffer to the handlers: how the polls divide them is of no
-- consequence.
use mathlib.Core.List.{flatten}
use nhi.Prelude.{
  ◌≡◌, refl, List, [], ◌∷◌, ◌++◌, Option, none, some, All, inl, inr, Option-cases, map,
}
use nhi.Common.{Event}
use nhi.Wire.{encode}
use nhi.Wire.Laws.{IsSent, event_of-encode}
use nhi.Daemon.Sqlite.{Sqlite}
use nhi.Daemon.Os.{Os}
use nhi.Daemon.Handlers.{Daemon, handle_record, handle_event}
use nhi.Daemon.Main.{Round, polled, Process, running, crashed, poll, main_loop}

-- The rounds that deliver them, as the kernel programs have put them into the ring buffer.
abbrev pub rounds_of : List (List Event) → List Round
rounds_of batches = map (λ events. polled (map encode events)) batches

-- The daemon that is left, or the fault.
abbrev pub still_running : {sq : Sqlite} → Option (Daemon sq) → Process sq
still_running none = crashed
still_running (some d) = running d

module _ (sq : Sqlite) (os : Os) where
  -- The handlers, one event after the other.
  unfoldable pub handle_all : List Event → Daemon sq → Option (Daemon sq)
  handle_all [] d = some d
  handle_all (e ∷ es) d = elim (handle_record sq os e d) [
    | none ↦ none
    | some d' ↦ handle_all es d'
  ]

  poll-encode :
      (es : List Event) (d : Daemon sq)
      → All IsSent es
      → poll sq os (map encode es) d ≡ handle_all es d
  unfolding poll handle_all handle_event
  poll-encode [] d sent = refl
  poll-encode (e ∷ es) d sent =
      let same = event_of-encode e sent.0 in
      elim (Option-cases (handle_record sq os e d)) [
        | inl f ↦ rw (poll, handle_all, same, f) refl
        | inr (d', f) ↦ rw (poll, handle_all, same, f) (poll-encode es d' sent.1)
      ]

  handle_all-append :
      (es later : List Event) (d : Daemon sq)
      → handle_all (es ++ later) d
        ≡ elim (handle_all es d) [ none ↦ none | some d' ↦ handle_all later d' ]
  unfolding handle_all
  handle_all-append [] later d = refl
  handle_all-append (e ∷ es) later d = elim (Option-cases (handle_record sq os e d)) [
    | inl f ↦ rw (handle_all, f) refl
    | inr (d', f) ↦ rw (handle_all, f) (handle_all-append es later d')
  ]

  -- Whatever events the kernel programs send, with their fields within their types, and however many
  -- of them each poll delivers: the loop handles them one by one in the order in which they were sent,
  -- up to a fault if a handler has one.
  pub main_loop_delivers :
      (batches : List (List Event)) (d : Daemon sq)
      → All (All IsSent) batches
      → main_loop sq os (rounds_of batches) d ≡ still_running (handle_all (flatten batches) d)
  unfolding main_loop flatten handle_all
  main_loop_delivers [] d sent = refl
  main_loop_delivers (es ∷ batches) d sent = elim (Option-cases (handle_all es d)) [
    | inl f ↦
        rw (main_loop, poll-encode es d sent.0, handle_all-append es (flatten batches) d, f) refl
    | inr (d', f) ↦
        rw (main_loop, poll-encode es d sent.0, handle_all-append es (flatten batches) d, f)
          (main_loop_delivers batches d' sent.1)
  ]
