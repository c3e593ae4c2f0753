-- ===== src/Tests/Starting.antt =====
-- The theorem on the start of the program.
use ft_irc.Tests.Rounds.{password, first_server}
use ft_irc.Start.{pos, runs, Strtol, init_at, init, start_on, start_up, Setup}
use ft_irc.Start.Granted.{start_up-runs, IsGranted}
use ft_irc.Channel.{atoi_from}
use ft_irc.Base.{◌==◌, codes, ◌≡◌, refl, ◌↔◌, true, some, [], ◌∷◌}

-- A reader of decimal digits, as `std::strtol` reads a port of digits alone.
abbrev read_port : Strtol
read_port digits = (pos (atoi_from 0 digits), [])

-- A system that grants descriptor 3.
abbrev granting : Setup
granting = record {
  socket = some 3;
  setsockopt = λ fd. true;
  fcntl = λ fd. true;
  bind = λ fd port. port == 6667;
  listen = λ fd. true;
}

start_up-runs_example :
    (start_up read_port granting (codes "6667" ∷ password ∷ []) ≡ runs first_server)
    ↔ IsGranted read_port granting (codes "6667" ∷ password ∷ []) first_server
start_up-runs_example = start_up-runs read_port granting first_server (codes "6667" ∷ password ∷ [])

-- Both sides hold.
started : start_up read_port granting (codes "6667" ∷ password ∷ []) ≡ runs first_server
unfolding start_up start_on init init_at atoi_from codes
started = refl
