-- ===== src/System/Sent.antt =====
-- Batches of events, as the polls of daemon/src/nhi.c take them from the ring buffer.
use mathlib.Core.List.{flatten}
use nhi.Prelude.{List, [], ◌∷◌, All, All-append_left, All-append_right}
use nhi.Common.{Event}
use nhi.Wire.Laws.{IsSent}

pub All-unflatten :
    (batches : List (List Event)) → All IsSent (flatten batches) → All (All IsSent) batches
unfolding flatten
All-unflatten [] all = tt
All-unflatten (es ∷ batches) all = (
  All-append_left IsSent es (flatten batches) all,
  All-unflatten batches (All-append_right IsSent es (flatten batches) all),
)
