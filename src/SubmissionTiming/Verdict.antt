-- ===== src/SubmissionTiming/Verdict.antt =====
-- windows-runtime-bridge/investigations/submission_timing_probe.c: what the exit code of the probe says
-- about the times at which the results were seen.
use dlssnr_on_amd_linux.Common.{ℕ, ◌-◌, ◌<◌, ◌≡◌, false, Option, none, some, ◌⊎◌}
use dlssnr_on_amd_linux.SubmissionTiming.{Machine, Poll, is_resolved, exit_code}
use dlssnr_on_amd_linux.SubmissionTiming.Order.{Reordered, Inverted, IsJudged}
use dlssnr_on_amd_linux.SubmissionTiming.Seen.{IsSeen}
use dlssnr_on_amd_linux.SubmissionTiming.Missed.{IsPassed}

module _ (machine : Machine) (clock : machine.World → ℕ) (resolution : ℕ) where
  -- The time that the counter would show.
  abbrev shown : ℕ → machine.World → ℕ
  shown start w = (machine.query_counter w).0 - start

  abbrev EndsJudged : ℕ → Option (Poll × machine.World) → Type 0
  EndsJudged start none = Unit
  EndsJudged start (some (p, w)) = IsJudged (shown start w) p

abbrev pub Unresolved : Poll → Type 0
Unresolved p = (i : ℕ) × (i < 8) × (is_resolved p i ≡ false)

-- What the exit code says: 0, that all eight were seen resolved and none strictly before an earlier
-- one; 1, that one was not, or that a later one was seen at the time of an earlier one or before.
abbrev pub Judges : Poll → Type 0
Judges p =
    ((exit_code p ≡ 0) × ¬ Unresolved p × ¬ Inverted p)
    ⊎ ((exit_code p ≡ 1) × (Unresolved p ⊎ Reordered p))

module _ (machine : Machine) (clock : machine.World → ℕ) (resolution : ℕ) where
  -- What is known of an end of the program: the exit code judges what was seen, every slot that is
  -- marked was seen, and every other one was missed.
  abbrev EndsJudging : ℕ → Option ((ℕ × Poll) × machine.World) → Type 0
  EndsJudging start none = Unit
  EndsJudging start (some ((code, p), w)) = Judges p × IsSeen machine start p × IsPassed machine p
