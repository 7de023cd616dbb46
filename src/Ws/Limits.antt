-- ===== src/Ws/Limits.antt =====
-- The limit of src/ws.rs on the frames of one socket.
use axeno_relay.Prelude.{
  ℕ, ◌+◌, ◌-◌, ◌≤◌, ◌≡◌, List, [], ◌∷◌, arith, All, leb, if◌then◌else◌, min, saturating_sub,
}
use axeno_relay.Config.{rate_window_ms, max_frames_per_window}
use axeno_relay.Ws.Connection.{count_frame}

-- How many of the frames that arrive at these times are handled.
unfoldable pub handled_frames : List ℕ → ℕ × ℕ → ℕ
handled_frames [] window = 0
handled_frames (now ∷ times) window =
    let rest = handled_frames times (count_frame now window).1 in
    if (count_frame now window).0 then rest + 1 else rest

within :
    (now start count : ℕ)
    → now - start ≤ rate_window_ms
    → ((count_frame now (start, count)).1.0 ≡ start)
      × ((count_frame now (start, count)).1.1 ≡ min (count + 1) 4294967295)
      × ((count_frame now (start, count)).0
          ≡ leb (min (count + 1) 4294967295) max_frames_per_window)
unfolding count_frame saturating_sub
within now start count h = (ground arith, ground arith, ground arith)

-- While a socket's rate window lasts, 600 frames at most are handled in it, those that it had counted
-- before included, however many arrive.
pub handled_frames-bounded :
    (times : List ℕ) (start count : ℕ)
    → All (λ now. now - start ≤ rate_window_ms) times
    → min count max_frames_per_window + handled_frames times (start, count) ≤ max_frames_per_window
unfolding handled_frames
handled_frames-bounded [] start count h = omega arith
handled_frames-bounded (now ∷ times) start count (here, later) =
    let (same, counted, verdict) = within now start count here in
    let next : (count_frame now (start, count)).1 ≡ (start, min (count + 1) 4294967295) =
      λ i. (same i, counted i) in
    let rest = handled_frames-bounded times start (min (count + 1) 4294967295) later in
    rw (next, verdict) (ground (arith, rest))
