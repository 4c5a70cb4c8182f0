-- ===== src/AsProcess.antt =====
-- class ASProcessHandler of src/ASProcessHandler.cpp: the part of it that is not commented out. Its
-- RunServer is a variable of its own file.
pub mod Count
use http.Base.{ℕ, ◌+◌, ◌%◌, ◌^◌, Bool, true, false, Option, none, some, List, [], ◌∷◌, Bytes}
use http.Configuration.{Configuration, NamespaceProps}
use http.Server.{Server, disable_signals, add_child_pid}

pub record AsProcess : Type 0 where
  pub run_server : Bool
  pub handles_termination : Bool

unfoldable pub as_set_termination_handler : AsProcess → AsProcess
as_set_termination_handler p = record p { handles_termination = true }

unfoldable pub as_terminate : AsProcess → AsProcess
as_terminate p = record p { run_server = false }

-- The function of src/Server.cpp that is global.
unfoldable pub register_child_pid_to_server : ℕ → Server → Server
unfolding add_child_pid
register_child_pid_to_server pid s = add_child_pid pid s

unfoldable pub register_child_pid : ℕ → Server → Server
unfolding register_child_pid_to_server
register_child_pid pid s = register_child_pid_to_server pid s

-- The loop over the namespaces has an empty body.
unfoldable pub fork_namespaces : List (Bytes × NamespaceProps) → Server → Server
fork_namespaces [] s = s
fork_namespaces (entry ∷ entries) s = fork_namespaces entries s

unfoldable pub fork_process_as_handler : Server → Server
unfolding disable_signals fork_namespaces
fork_process_as_handler s = fork_namespaces s.config.namespaces (disable_signals s)

module _ (interpreters : Bytes → Option ℕ) where
  -- The loop over the namespaces, whose JSON values `interpreters` are a parameter; `none` where
  -- the conversion throws.
  unfoldable pub count_interpreters : ℕ → List (Bytes × NamespaceProps) → Option ℕ
  count_interpreters count [] = some count
  count_interpreters count ((host, props) ∷ entries) = elim (interpreters host) [
    | none ↦ none
    | some n ↦ count_interpreters ((count + n % 2 ^ 32) % 2 ^ 32) entries
  ]

  unfoldable pub get_as_interpreter_count : Configuration → Option ℕ
  unfolding count_interpreters
  get_as_interpreter_count config = count_interpreters 0 config.namespaces
