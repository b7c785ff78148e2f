-- ===== src/Task/HumanTime/Tests.antt =====
-- `human_time` at sample times.
use rally_ci.Prelude.{◌≡◌, refl, [], All}
use rally_ci.Python.Text.{join, show}
use rally_ci.Task.HumanTime.{human_parts, human_time}
use rally_ci.Task.HumanTime.Reading.{total, IsProper, total-human_parts, human_parts-IsProper}

human_time_sample : human_time 93784 ≡ "1day 2h 3m 4s"
unfolding human_time show join
human_time_sample = refl

human_time_days : human_time 172801 ≡ "2days 1s"
unfolding human_time show join
human_time_days = refl

total-human_parts_example : total (human_parts 4 93784 []) ≡ 93784
total-human_parts_example = total-human_parts 93784

human_parts-IsProper_example : All IsProper (human_parts 4 93784 [])
human_parts-IsProper_example = human_parts-IsProper 93784
