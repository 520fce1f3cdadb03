-- ===== src/Bootstrap/System.antt =====
-- The interfaces of cmd/bootstrap-service/interfaces.go: each call is recorded with its result, and
-- an environment answers it, by all that was called before.
use hyperfleet_controller.Base.{
  ℕ, ◌+◌, Text, ◌==◌, if◌then◌else◌, List, [], ◌∷◌, Err, Result, M, none, Emits, Emitted-cons,
}
use hyperfleet_controller.Bootstrap.Config.{RunnerConfig, Platform}

-- CommandContext(name, args...) with SetDir(dir). An empty `dir` is the directory of the process.
pub record Command : Type 0 where
  pub name : Text
  pub args : List Text
  pub dir : Text

-- A file is known by the path that it was opened at.
pub data Call : Type 0 where
  mkdir_all : Text → ℕ → Call
  remove_all : Text → Call
  open_file : Text → ℕ → ℕ → Call
  write_string : Text → Text → Call
  copy : Text → Text → Call
  close_file : Text → Call
  http_get : Text → Call
  close_body close_gzip sync : Call
  run : Command → Call
  reboot : ℕ → Call
  sleep : ℕ → Call

abbrev pub Event : Type 0
Event = Call × Err

-- The calls so far, the newest first.
abbrev pub Trace : Type 0
Trace = List Event

-- tar.Header.Typeflag
pub data Typeflag : Type 0 where
  type_dir type_reg : Typeflag
  type_other : ℕ → Typeflag

-- A tar entry. The mode is the bit pattern of an int64.
pub record Header : Type 0 where
  pub name : Text
  pub typeflag : Typeflag
  pub mode : ℕ
  pub content : Text

-- A response: its status, whether its body begins as gzip does, the entries that the tar reader
-- finds in it, and how the reader ends, by io.EOF (`none`) or by an error.
pub record Response : Type 0 where
  pub status_code : ℕ
  pub gzip_error : Err
  pub entries : List Header
  pub tar_error : Err

-- The outside: the operating system, the network and Go's decoders.
pub record Env : Type 0 where
  pub platform : Platform
  pub answer : Trace → Call → Err
  pub response : Trace → Text → Response
  pub new_request : Text → Err
  pub read_file : Text → Result Text
  pub unmarshal : Text → Result RunnerConfig

unfoldable pub perform : Env → Call → M Trace Err
perform env call trace = let result = env.answer trace call in (result, (call, result) ∷ trace)

pub Emits-perform :
    {P : Event → Type 0} (env : Env) (call : Call)
    → ((r : Err) → P (call, r))
    → Emits P (perform env call)
unfolding perform
Emits-perform {P} env call p = record {
  from = λ t. Emitted-cons P (call, env.answer t call) t (p (env.answer t call));
}

-- How many files were opened, and how many closed.
abbrev pub count_open : Event → ℕ
count_open (open_file p flags mode, none) = 1
count_open _ = 0

abbrev pub count_close : Event → ℕ
count_close (close_file p, r) = 1
count_close _ = 0

unfoldable pub opens : Trace → ℕ
opens [] = 0
opens (e ∷ t) = count_open e + opens t

unfoldable pub closes : Trace → ℕ
closes [] = 0
closes (e ∷ t) = count_close e + closes t

-- How often one path was opened without error, and how often it was closed.
abbrev pub count_open_of : Text → Event → ℕ
count_open_of path (open_file p flags mode, none) = if p == path then 1 else 0
count_open_of path _ = 0

abbrev pub count_close_of : Text → Event → ℕ
count_close_of path (close_file p, r) = if p == path then 1 else 0
count_close_of path _ = 0

unfoldable pub opens_of : Text → Trace → ℕ
opens_of path [] = 0
opens_of path (e ∷ t) = count_open_of path e + opens_of path t

unfoldable pub closes_of : Text → Trace → ℕ
closes_of path [] = 0
closes_of path (e ∷ t) = count_close_of path e + closes_of path t
