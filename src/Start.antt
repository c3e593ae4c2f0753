-- ===== src/Start.antt =====
-- main.cpp and `Server::init` of network/Server.cpp: the arguments of the program and the listening
-- socket. `std::strtol` and the system calls are arguments.
pub mod Granted
use ft_irc.Base.{
  ℕ, Bool, ◌==◌, ◌||◌, ◌%◌, ◌^◌, not, Option, none, some, List, [], ◌∷◌, Text, codes, if◌then◌else◌,
  is_empty, ltb,
}
use ft_irc.Server.{Server}
use ft_irc.Server.Accept.{new_server}

-- A `long`: `negsuc n` is -(n + 1).
pub data ℤ : Type 0 where
  pos : ℕ → ℤ
  negsuc : ℕ → ℤ

-- The number that `std::strtol` reads, and what stands from `end` on.
abbrev pub Strtol : Type 0
Strtol = Text → ℤ × Text

-- What the calls of `init` report: a descriptor or a failure of `socket`, and the success of the
-- others. `bind` is given the port in 16 bits.
pub record Setup : Type 0 where
  pub socket : Option ℕ
  pub setsockopt : ℕ → Bool
  pub fcntl : ℕ → Bool
  pub bind : ℕ → ℕ → Bool
  pub listen : ℕ → Bool

-- The line on the standard error, or the server that runs.
pub data Started : Type 0 where
  fails : Text → Started
  runs : Server → Started

unfoldable pub init_at : Setup → ℕ → Text → ℕ → Started
init_at setup port password fd =
    if not (setup.setsockopt fd)
    then fails (codes "Fatal Error: setsockopt failed")
    else if not (setup.fcntl fd)
    then fails (codes "Fatal Error: fcntl failed")
    else if not (setup.bind fd (port % 2 ^ 16))
    then fails (codes "Fatal Error: Bind failed")
    else if not (setup.listen fd)
    then fails (codes "Fatal Error: Listen failed")
    else runs (new_server fd password)

unfoldable pub init : Setup → ℕ → Text → Started
init setup port password = elim setup.socket [
  | none ↦ fails (codes "Fatal Error: Socket creation failed")
  | some fd ↦ init_at setup port password fd
]

abbrev pub invalid_port : Started
invalid_port = fails (codes "Error: Invalid port number")

-- `port <= 0 || port > 65535`, behind `*end != '\0'`.
unfoldable pub start_on : Setup → Text → ℤ → Text → Started
start_on setup password (negsuc n) rest = invalid_port
start_on setup password (pos port) rest =
    if not (is_empty rest) || port == 0 || ltb 65535 port
    then invalid_port
    else init setup port password

-- The arguments behind the program's name.
unfoldable pub start_up : Strtol → Setup → List Text → Started
start_up strtol setup (port ∷ password ∷ []) =
    if is_empty password
    then fails (codes "Error: Password must not be empty")
    else start_on setup password (strtol port).0 (strtol port).1
start_up strtol setup [] = fails (codes "Usage: ./ircserv <port> <password>")
start_up strtol setup (port ∷ []) = fails (codes "Usage: ./ircserv <port> <password>")
start_up strtol setup (port ∷ password ∷ more ∷ rest) =
    fails (codes "Usage: ./ircserv <port> <password>")
