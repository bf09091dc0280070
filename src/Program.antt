-- ===== src/Program.antt =====
-- main.cpp: the arguments, and the echo that it runs on every connection. A device and a socket have
-- names; `none` stands for the exception of a text that is no address.
pub mod Arguments
pub mod Echo
use mstack_cpp.Base.{
  ℕ, zero, suc, ◌+◌, ◌^◌, List, [], ◌∷◌, ◌++◌, Bool, true, false, if◌then◌else◌, ◌==◌, length,
  Result, ok, ◌>>=◌,
}
use mstack_cpp.Text.{Text, before, remove_prefix, from_chars}
use mstack_cpp.Ring.{CircularBuffer}
use mstack_cpp.Tcb.{Tcb, Env, Task, read_done, write_done, send_pending, notify_connected}
use mstack_cpp.Tcb.Input.{async_read_some}
use mstack_cpp.Tcb.Output.{async_write, make_and_send_pkt, run_send_pending}

-- "192.168.0.1".
abbrev pub bind_ipv4_addr_default : Text
bind_ipv4_addr_default =
    b'1' ∷ b'9' ∷ b'2' ∷ b'.' ∷ b'1' ∷ b'6' ∷ b'8' ∷ b'.' ∷ b'0' ∷ b'.' ∷ b'1' ∷ []

pub record Args : Type 0 where
  pub dev_name : Text
  pub bind_ipv4 : Text
  pub port : ℕ

abbrev pub or_default : Text → Text
or_default [] = bind_ipv4_addr_default
or_default (c ∷ cs) = c ∷ cs

-- `main`, up to the endpoint that is listened on.
pub parse_args : Text → Args
parse_args bind_devipv4port =
    let dev_name = before b':' bind_devipv4port in
    let bind_ipv4port = remove_prefix (length dev_name + 1) bind_devipv4port in
    let bind_ipv4 = before b':' bind_ipv4port in
    let bind_port = remove_prefix (length bind_ipv4 + 1) bind_ipv4port in
    record {
      dev_name = dev_name;
      bind_ipv4 = or_default bind_ipv4;
      port = from_chars (2 ^ 16) 0 bind_port;
    }

-- The size of the buffer.
abbrev pub buf_size : ℕ
buf_size = 2000

-- What `do_accept` leaves: whether an accept waits, and the sockets that echo.
pub record Acceptance : Type 0 where
  pub waiting : Bool
  pub echoing : List ℕ

-- The callback of `async_accept` for the socket `sk`: after an error nobody accepts any more.
pub on_accept : Bool → ℕ → Acceptance → Acceptance
on_accept true sk a = record a { waiting = false }
on_accept false sk a = record { waiting = true; echoing = a.echoing ++ sk ∷ [] }

module _ {Ring : Type 0} (C : CircularBuffer Ring) (env : Env) where
  -- `async_read_and_echo`, on the block of the socket.
  unfoldable pub async_read_and_echo : ℕ → Tcb Ring → Tcb Ring
  async_read_and_echo sk t = async_read_some C buf_size sk t

  -- A posted task of the block, with the callbacks that the program gave: a read is written back,
  -- and a write is followed by the next read. The block calls them without an error.
  pub echo_task : ℕ → Task → Tcb Ring → Result (Tcb Ring)
  unfolding async_read_and_echo
  echo_task sk (read_done cb bytes) t = do t1 ← async_write C bytes sk t; make_and_send_pkt C env t1
  echo_task sk (write_done cb size) t = ok (async_read_and_echo sk t)
  echo_task sk send_pending t = run_send_pending C env t
  echo_task sk notify_connected t = ok t

  -- The loop of `io_context_execution().run()` with the tasks of one block: `none` is left to run,
  -- or the first is run.
  abbrev pub next_task : ℕ → List Task → Tcb Ring → Result (Tcb Ring)
  next_task sk [] t = ok t
  next_task sk (task ∷ rest) t = echo_task sk task (record t { posted = rest })

  pub run_tasks : ℕ → ℕ → Tcb Ring → Result (Tcb Ring)
  unfolding echo_task
  run_tasks sk zero t = ok t
  run_tasks sk (suc n) t = do t1 ← next_task sk t.posted t; run_tasks sk n t1
