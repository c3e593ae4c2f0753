-- ===== src/Start/Granted.antt =====
-- When main.cpp comes to `Server::run`.
-- The arguments are a port and a password, and the system grants the socket.
use ft_irc.Start.{Strtol, init_at, Setup, pos, runs, init, start_on, ℤ, Started, negsuc, fails}
use ft_irc.Start.{start_up}
use ft_irc.Server.{Server}
use ft_irc.Server.Accept.{new_server}
use ft_irc.Base.{
  is_empty, Text, ℕ, ◌≤◌, ◌<◌, ◌≡◌, true, false, some, List, [], ◌∷◌, if◌then◌else◌, Option-cases,
  ◌%◌, ◌^◌, refl, sym, ap, ◌∙◌, ◌↔◌, inl, inr, Bool, arith, ltb, ◌==◌, not, ◌||◌,
}

pub record IsGranted (strtol : Strtol) (setup : Setup) (args : List Text) (s : Server)
    : Type 0 where
  pub digits : Text
  pub password : Text
  pub port : ℕ
  pub fd : ℕ
  pub two_arguments : args ≡ digits ∷ password ∷ []
  pub password_given : is_empty password ≡ false
  pub port_read : strtol digits ≡ (pos port, [])
  pub port_positive : 0 < port
  pub port_bounded : port ≤ 65535
  pub socket_made : setup.socket ≡ some fd
  pub options_set : (setup.setsockopt fd ≡ true) × (setup.fcntl fd ≡ true)
  pub port_bound : setup.bind fd port ≡ true
  pub listening : setup.listen fd ≡ true
  pub same_server : s ≡ new_server fd password

runs_one : {s t : Server} → runs s ≡ runs t → s ≡ t
runs_one {s} e = ap (λ (r : Started). elim r [ fails line ↦ s | runs x ↦ x ]) e

-- A guard that a server has come through.
passed :
    (b : Bool) (line : Text) (rest : Started) (s : Server)
    → (if b then fails line else rest) ≡ runs s
    → (b ≡ false) × (rest ≡ runs s)
passed true line rest s e = absurd (cc)
passed false line rest s e = (refl, e)

module _ (strtol : Strtol) (setup : Setup) (s : Server) where
  init_at-runs :
      (port : ℕ) (password : Text) (fd : ℕ)
      → port ≤ 65535
      → init_at setup port password fd ≡ runs s
      → ((setup.setsockopt fd ≡ true) × (setup.fcntl fd ≡ true))
        × (setup.bind fd port ≡ true)
        × (setup.listen fd ≡ true)
        × (s ≡ new_server fd password)
  unfolding init_at
  init_at-runs port password fd b e =
      let options = passed (not (setup.setsockopt fd)) _ _ s e in
      let control = passed (not (setup.fcntl fd)) _ _ s options.1 in
      let bound = passed (not (setup.bind fd (port % 2 ^ 16))) _ _ s control.1 in
      let listened = passed (not (setup.listen fd)) _ _ s bound.1 in
      let same_port : port % 2 ^ 16 ≡ port = omega (arith, b) in
      (
        (ground (arith, options.0), ground (arith, control.0)),
        ground (arith, rw same_port at bound.0),
        ground (arith, listened.0),
        sym (runs_one listened.1),
      )

  start_on-runs :
      (digits password : Text)
      → is_empty password ≡ false
      → (v : ℤ) (rest : Text) → strtol digits ≡ (v, rest)
      → start_on setup password v rest ≡ runs s
      → IsGranted strtol setup (digits ∷ password ∷ []) s
  unfolding start_on init init_at
  start_on-runs digits password given (negsuc n) rest r e = absurd (cc)
  start_on-runs digits password given (pos port) rest r e =
      let range = passed (not (is_empty rest) || port == 0 || ltb 65535 port) _ _ s e in
      let bounded : port ≤ 65535 = ground (arith, range.0) in
      elim (Option-cases setup.socket) [
        | inl f ↦ absurd (cc (rw f at range.1))
        | inr (fd, f) ↦
            let made = init_at-runs port password fd bounded (rw f at range.1) in
            record {
              digits = digits;
              password = password;
              port = port;
              fd = fd;
              two_arguments = refl;
              password_given = given;
              port_read = r ∙ ap (λ t. (pos port, t)) (empty_rest rest (ground (arith, range.0)));
              port_positive = ground (arith, range.0);
              port_bounded = bounded;
              socket_made = f;
              options_set = made.0;
              port_bound = made.1;
              listening = made.2;
              same_server = made.3;
            }
      ]
    where
      empty_rest : (t : Text) → is_empty t ≡ true → t ≡ []
      empty_rest [] n = refl
      empty_rest (c ∷ t) n = absurd (cc)

  start_up-asks :
      (args : List Text) → start_up strtol setup args ≡ runs s → IsGranted strtol setup args s
  unfolding start_up
  start_up-asks [] e = absurd (cc)
  start_up-asks (port ∷ []) e = absurd (cc)
  start_up-asks (port ∷ password ∷ []) e =
      let given = passed (is_empty password) _ _ s e in
      start_on-runs port password given.0 _ _ refl given.1
  start_up-asks (port ∷ password ∷ more ∷ rest) e = absurd (cc)

  init_at-grants :
      (port : ℕ) (password : Text) (fd : ℕ)
      → port ≤ 65535
      → (setup.setsockopt fd ≡ true) × (setup.fcntl fd ≡ true)
      → setup.bind fd port ≡ true
      → setup.listen fd ≡ true
      → init_at setup port password fd ≡ runs (new_server fd password)
  unfolding init_at
  init_at-grants port password fd b o bound listened =
      let same_port : port % 2 ^ 16 ≡ port = omega (arith, b) in
      rw (same_port, o.0, o.1, bound, listened) refl

  start_up-grants :
      (args : List Text) → IsGranted strtol setup args s → start_up strtol setup args ≡ runs s
  start_up-grants args g = rw (g.two_arguments, g.same_server) (asked g)
    where
      in_range : (port : ℕ) → 0 < port → port ≤ 65535 → (port == 0 || ltb 65535 port) ≡ false
      in_range port a b = ground (arith, a, b)

      asked :
          IsGranted strtol setup args s
          → start_up strtol setup (g.digits ∷ g.password ∷ []) ≡ runs (new_server g.fd g.password)
      asked k =
          unfold start_up start_on init init_at in
          rw
            (
              g.password_given,
              g.port_read,
              in_range g.port g.port_positive g.port_bounded,
              g.socket_made,
            )
            (init_at-grants g.port g.password g.fd g.port_bounded g.options_set g.port_bound
              g.listening)

  -- The program comes to the loop with a server just if it has two arguments, the second is not
  -- empty, strtol reads the whole of the first as a number from 1 to 65535, the socket is made,
  -- set up, bound to that port and listening, and the server is the new one with that descriptor
  -- and that password.
  pub start_up-runs :
      (args : List Text) → (start_up strtol setup args ≡ runs s) ↔ IsGranted strtol setup args s
  start_up-runs args = (start_up-asks args, start_up-grants args)
