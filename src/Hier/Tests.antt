-- ===== src/Hier/Tests.antt =====
-- Runs of the widgets' client, and the theorem about it at a concrete input.
use nim_brokers.Prelude.{◌≡◌, leb, ◌&&◌, if◌then◌else◌}
use nim_brokers.Client.{next, crash}
use nim_brokers.Hier.Client.{Timing, main, at_start}
use nim_brokers.Hier.Asserts.{done, main-at_start}

-- The last signal is too late.
abbrev timing : Timing
timing = record {
  nudge_delay = 2;
  nudge_polls = 200;
  tick_delay = 0;
  tick_polls = 200;
  resize_delay = 4;
  resize_polls = 3;
}

main-at_start_example : main timing at_start ≡ (
    if leb timing.nudge_delay timing.nudge_polls
      && leb timing.tick_delay timing.tick_polls
      && leb timing.resize_delay timing.resize_polls
    then next 0 (done timing)
    else crash)
main-at_start_example = main-at_start timing
