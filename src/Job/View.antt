-- ===== src/Job/View.antt =====
-- `Job.to_dict`: what the status service shows of a job. `now` is `int(time.time())`; times are
-- whole seconds here, and the clock does not go back.
use rally_ci.Prelude.{ℕ, ◌-◌}
use rally_ci.Python.Value.{Value, num, str, obj, field, end}
use rally_ci.Job.{Job}

unfoldable pub to_dict : ℕ → Job → Value
to_dict now j = obj (
    field "id" (str j.id) (
      field "name" (str j.name) (
        field "status" (str j.status) (
          field "task" (str j.task_id) (
            field "finished_at" (num j.finished_at)
              (field "seconds" (num (now - j.queued_at)) end))))))
