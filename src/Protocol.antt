-- ===== src/Protocol.antt =====
-- lab5_message_queues/POSIX/common.h: the messages that the server and its clients exchange. The SystemV
-- programs have the same structure and limits.
use op_sys.Common.{ℕ, List}

-- `#define MAX_CLIENTS 5`, `#define MAX_CONT_SIZE 2048`
abbrev pub max_clients : ℕ
max_clients = 5

abbrev pub max_cont_size : ℕ
max_cont_size = 2048

-- `enum type`
abbrev pub register : ℕ
register = 1

abbrev pub mirror : ℕ
mirror = 2

abbrev pub time : ℕ
time = 3

abbrev pub end : ℕ
end = 4

abbrev pub quit : ℕ
quit = 5

-- `struct Message`: the type is a request's, or the pid of the client that a reply is for; `content` is
-- the array of `max_cont_size` characters.
pub record Message : Type 0 where
  pub type : ℕ
  pub sender_pid : ℕ
  pub content : List ℕ
