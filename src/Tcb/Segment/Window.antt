-- ===== src/Tcb/Segment/Window.antt =====
-- The acceptability test of `tcp_check_segment` against the table of RFC 793.
use mstack_cpp.Base.{ℕ, ◌+◌, ◌-◌, ◌^◌, ◌≤◌, ◌<◌, ◌≡◌, ◌↔◌, ◌⊎◌, arith, true, false}
use mstack_cpp.Tcb.Segment.{acceptable}

-- RCV.NXT =< s < RCV.NXT+RCV.WND, where the sum does not wrap.
abbrev pub InWindow : ℕ → ℕ → ℕ → Type 0
InWindow next window s = (next ≤ s) × (s < next + window)

-- Where neither the window nor the segment wraps, and for a window and a length that are not 0:
-- the first three rows of the table hold as written (both are 0; an empty segment is accepted
-- exactly when it begins in the window; text is never accepted by a closed window). In the
-- fourth row a segment with text is accepted exactly when it begins at or behind RCV.NXT, or
-- ends in the window: the upper bound on its beginning is missing.
pub acceptable_rows :
    (next window seq_no seglen : ℕ)
    → 0 < window
    → 0 < seglen
    → next + window < 2 ^ 32
    → seq_no + seglen < 2 ^ 32
    → ((acceptable next 0 seq_no 0 ≡ true) ↔ (seq_no ≡ next))
      × ((acceptable next window seq_no 0 ≡ true) ↔ InWindow next window seq_no)
      × (acceptable next 0 seq_no seglen ≡ false)
      × ((acceptable next window seq_no seglen ≡ true)
          ↔ ((next ≤ seq_no) ⊎ InWindow next window (seq_no + seglen - 1)))
unfolding acceptable
acceptable_rows next window seq_no seglen w s fits_window fits_segment =
    (ground arith, ground arith, ground arith, ground arith)

-- So every segment with text that lies wholly behind an open window that does not wrap is accepted.
pub acceptable-beyond_window :
    (next window seq_no seglen : ℕ)
    → 0 < window
    → 0 < seglen
    → next + window < 2 ^ 32
    → next + window ≤ seq_no
    → acceptable next window seq_no seglen ≡ true
unfolding acceptable
acceptable-beyond_window next window seq_no seglen w s fits beyond = ground arith
