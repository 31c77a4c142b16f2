-- ===== src/Cluster/Host.antt =====
-- What a process asks of the operating system (`os`, `os/exec`, `bufio`), and the answers.
use kube_nas.Base.{String, Option, List}
use kube_nas.Base.Int.{ℤ}
use kube_nas.Base.Outcome.{Error}

pub data HostCall : Type 0 where
  run : String → List String → HostCall
  make_dirs : String → HostCall
  read : String → HostCall
  open_append : String → HostCall
  open_truncate : String → HostCall
  write : String → String → HostCall
  look_path : String → HostCall
  remove_all : String → HostCall

-- A command that ended, or did not start. `combined` is what `CombinedOutput` gives, and `exit_code`
-- is missing when there is no process state.
pub record Ended : Type 0 where
  pub error : Option Error
  pub stdout : String
  pub stderr : String
  pub combined : String
  pub exit_code : Option ℤ
