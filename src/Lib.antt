-- ===== src/Lib.antt =====
-- Rally-CI is a daemon that listens to the events of a code review system, and runs the jobs of a
-- project on virtual machines for every patch set. This library models its parts and proves what makes
-- them correct.
--
-- The parts. A config file says which streams, projects, jobs, runners and providers there are
-- (rallyci/config.py). A stream turns the lines of `gerrit stream-events` into tasks, one for a patch
-- set at a time (rallyci/services/gerrit.py). A task has the jobs of its project, and reports their
-- results when it is cleaned up (rallyci/task.py). A job starts a runner under a time limit and keeps
-- its status (rallyci/job.py). The runner plays scripts on machines (rallyci/runners/ssh.py), which a
-- provider makes on its hosts (rallyci/providers/virsh.py) over ssh (rallyci/common/asyncssh.py). The
-- root starts all these objects and has them cleaned up (rallyci/root.py). The status page is told of
-- every task that starts or ends and of every job whose status changes (rallyci/services/status.py).
--
-- The files.
--   Prelude: names of the libraries, tests on numbers, lists, and dicts with text keys.
--   Python: exceptions as values (Result), code that changes a state and may raise (Exec), code that
--     may wait without end (Wait), the values of JSON and YAML (Value), and texts (Text).
--   Utils: random names, addresses and `retry` of rallyci/utils.py. `Runtime` has the clock and the
--     random draws that the program reads.
--   Config: Load is the loop of `Config.__init__`, Modules is `_get_module` and what uses it,
--     Logging is `_configure_logging`, and Data holds the records that the other parts read out of
--     `config.data`.
--   Job: `Job.__init__` is new_job; `Job.run` is run, its `try` statement is settle. View is to_dict.
--   Runner: `Class.run` of the ssh runner is run_scripts; its two loops are play_all and play_vm. Cleanup
--     is its `cleanup`.
--   Task: Key is get_key, Env is `_get_env`, Create is `Task.__init__`, HumanTime is human_time,
--     Run is run, Publish is publish_results, and View is to_dict.
--   Stream: `_get_task` is get_task, `_handle_line` is handle_line, and `Task.cleanup` is cleanup, which
--     shares the set of keys with it. Steps is the life of a stream as lines that come in and tasks that
--     end, in any order, and Service the run over ssh.
--   Root: the dicts of futures, with one step for each thing that starts or ends. Start and Run
--     are `Root.run`, from the start of the services to the end of the loop. Sound has the balance of
--     what is started, runs and is cleaned up.
--   Ssh: Command is `AsyncSSH.run` for a server that is ready, Connect is `AsyncSSH.wait`, Session is
--     the two together, and Scp is scp_get.
--   Virsh: Bridge is `_get_bridge`, Storage the backends, Machine the class `VM`, Build is
--     `build_image`, Host is `get_vms` of a host, and Provider the choice of a host, with
--     its `get_vms` in Vms. Metadata is the metadata server.
--     Domain, under Machine, is the description of a machine that libvirt is given, made of
--     Element, the class XMLElement.
--   Periodic: the class PeriodicTask of rallyci/common/periodictask.py, with its timers.
--   Status: the status page of rallyci/services/status.py. A connection is a number, `ws` is connect and
--     receive, `_send_all` is send_all. Steps is the life of the page, and Life is run and cleanup.
--   Legacy: Cr is rallyci/cr.py and Environments is rallyci/environments, which nothing loads any more;
--     Fakes is rallyci/runners/fake.py and a round of rallyci/streams/fake.py.
--
-- State and errors. A record holds the state of an object, and a method is a function from the state
-- to a result and the state: what was written before an exception stays written. Code that runs under
-- a lock is modelled as one step, since no other code that takes the lock runs meanwhile.
--
-- Numbers and fuel. Numbers are natural numbers, and times are whole seconds. `show` prints a number n
-- on fuel n + 1, and each digit divides by ten. The loops that ask a host again run on fuel: 77 rounds
-- of four seconds are enough for the 300 seconds of get_ip, 8 for shutdown, 302 attempts for wait, and
-- the number of an image's ancestors for build_image; waits for futures take as many rounds as there are
-- futures at most. These bounds are theorems. The choice of a host
-- goes on as long as all hosts are full, so that no fuel is enough for it.
--
-- Parameters. What the program calls outside its own files is an argument: `json.loads`, the matching
-- of regular expressions from the config, `str.format` of templates, the modules that are imported, the
-- handlers that services add, what the connections of the status page take, and the answers of hosts,
-- machines and processes.
--
-- Not modelled: the page index.html, the routes and servers of aiohttp, the argument parser of
-- rallyci/config.py, and the loop over the file of a fake stream; rallyci/providers/lxc.py,
-- which nothing loads; and rallyci/daemon.py, the entry point.
pub mod Prelude
pub mod Python
pub mod Utils
pub mod Config
pub mod Job
pub mod Runner
pub mod Task
pub mod Stream
pub mod Root
pub mod Virsh
pub mod Ssh
pub mod Periodic
pub mod Status
pub mod Legacy
