-- ===== src/Task.antt =====
-- rallyci/task.py. `Env` is `_get_env`, `Create` is `Task.__init__`, `Publish` is `publish_results`.
pub mod HumanTime
pub mod Key
pub mod Env
pub mod Create
pub mod Publish
pub mod View
pub mod Run
mod Tests
