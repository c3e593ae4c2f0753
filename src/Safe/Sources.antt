-- ===== src/Safe/Sources.antt =====
-- The names that clients and channels have in a server that `Server::run` reaches.
use ft_irc.Server.{Server}
use ft_irc.Heap.{client}
use ft_irc.Safe.Reach.{IsReachable-Inv, IsReachable}
use ft_irc.Commands.Session.{
  c_isalpha, c_isalnum, is_special, nickname_rest, is_valid_nickname, has_at,
}
use ft_irc.Handlers.Member.{command_of}
use ft_irc.Reply.Source.{read_source, read_source-make_command}
use ft_irc.Server.Inv.{Inv}
use ft_irc.Base.{
  Option-cases, Text, find, ℕ, ◌≡◌, refl, inl, inr, true, false, none, some, [], ◌∷◌, arith,
}

-- A nickname that common/commandlist/Nick.cpp accepts has no exclamation mark.
no_bang-nickname_rest : (s : Text) → nickname_rest s ≡ true → find b'!' s ≡ none
unfolding nickname_rest find c_isalnum c_isalpha is_special
no_bang-nickname_rest [] e = refl
no_bang-nickname_rest (c ∷ s) e = ground (arith, e, no_bang-nickname_rest s)

no_bang-is_valid_nickname : (s : Text) → is_valid_nickname s ≡ true → find b'!' s ≡ none
unfolding is_valid_nickname find c_isalpha is_special
no_bang-is_valid_nickname [] e = absurd (cc)
no_bang-is_valid_nickname (c ∷ s) e = ground (arith, e, no_bang-nickname_rest s)

no_at-has_at : (s : Text) → has_at s ≡ false → find b'@' s ≡ none
no_at-has_at s e = elim (Option-cases (find b'@' s)) [
  | inl q ↦ q
  | inr (n, q) ↦ absurd (ground (arith, rw (q, has_at) at e))
]

module _ (s : Server) (reached : IsReachable s) where
  -- In a reached server, a registered client has a valid nickname, and the source of any line
  -- that makeCommand makes for it reads back as its nickname and its user name.
  pub reached-sources :
      (p : ℕ) (cmd rest : Text)
      → (client s.heap p).is_registered ≡ true
      → (is_valid_nickname (client s.heap p).nickname ≡ true)
        × (read_source (command_of s.heap p cmd rest)
            ≡ some ((client s.heap p).nickname, (client s.heap p).username))
  reached-sources p cmd rest r =
      let v : Inv s = IsReachable-Inv reached in
      let given = (v.people.credentials p r).1 in
      let named = v.people.well_named p in
      let valid : is_valid_nickname (client s.heap p).nickname ≡ true =
        ground (arith, given, named.0) in
      (
        valid,
        read_source-make_command _ _ _ cmd rest (no_bang-is_valid_nickname _ valid)
            (no_at-has_at _ named.1),
      )
