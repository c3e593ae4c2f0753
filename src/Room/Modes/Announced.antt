-- ===== src/Room/Modes/Announced.antt =====
-- What `handleMode` of channel/Channel.cpp announces, read by a client.
use ft_irc.Reply.{make_command}
use ft_irc.Heap.Silent.{channel-silent}
use ft_irc.Heap.{client, channel, Heap}
use ft_irc.Client.{wire, Client}
use ft_irc.Handlers.Member.{command_of}
use ft_irc.Handlers.Modes.{mode_letters, start_modes, announce, ModeLoop, handle_mode}
use ft_irc.Channel.{is_member, is_operator}
use ft_irc.Heap.Delivery.{sent_to, send_to_all-delivery}
use ft_irc.Heap.Quiet.{IsLiveClient, IsLiveChannel, quiet-send_to_all}
use ft_irc.Room.Modes.{settings_of, read_modes, spaced, begin, Reading}
use ft_irc.Room.Modes.Letters.{Good-mode_letters}
use ft_irc.Room.Modes.Reader.{IsFaithful, Faithful, reading}
use ft_irc.Base.{
  ◌==◌, if◌then◌else◌, not, is_empty, Distinct, Text, codes, ℕ, ◌≡◌, refl, false, ◌&&◌, List, [],
  ◌++◌, if_both, ap, ◌∙◌, arith, sym, subst, true, append-nil,
}

Faithful-start_modes :
    (ch u : ℕ) (h : Heap) → IsLiveChannel h ch → IsFaithful ch u h (start_modes h)
unfolding read_modes
Faithful-start_modes ch u h live = (
  [],
  record {
    args_text = refl;
    reads = λ more. refl;
    live = live;
    same_members = refl;
    same_name = refl;
    others = λ p n. refl;
    same_user = refl;
  },
)

-- The loop of `handleMode`, run to its end.
abbrev pub letters_run : ℕ → ℕ → Text → List Text → Heap → ModeLoop
letters_run ch u modes params h = mode_letters ch u params modes (start_modes h)

-- The announcement in the words of a client: the letters, then the parameters.
abbrev pub mode_line : ℕ → ℕ → Text → List Text → Heap → Text
mode_line ch u applied args h =
    command_of h u (codes "MODE") ((channel h ch).name ++ codes " " ++ applied ++ spaced args)

same_client : (h k : Heap) (p : ℕ) → k.client_at p ≡ h.client_at p → client k p ≡ client h p
unfolding client
same_client h k p e = ground (arith, e)

-- The line does not depend on what the loop has sent.
line-announce :
    (ch u : ℕ) (h : Heap) (l : ModeLoop) (args : List Text)
    → Faithful ch u h l args
    → command_of l.heap u
        (codes "MODE")
        ((channel l.heap ch).name ++ codes " " ++ l.applied ++ l.applied_args)
      ≡ mode_line ch u l.applied args h
line-announce ch u h l args s =
    rw (s.same_name, s.args_text)
      (ap
        (λ (c : Client).
          make_command c.nickname c.username c.ip (codes "MODE")
            ((channel h ch).name ++ codes " " ++ l.applied ++ spaced args))
        s.same_user)

module _ (ch u : ℕ) (h : Heap) where
  sent-announce :
      (l : ModeLoop) (args : List Text) (p : ℕ)
      → Faithful ch u h l args
      → IsLiveClient h p
      → u == p ≡ false
      → Distinct (channel h ch).members
      → sent_to (announce ch u l) p ≡ (
          if not (is_empty l.applied) && is_member (channel h ch) p
          then sent_to h p ++ wire (mode_line ch u l.applied args h)
          else sent_to h p)
  unfolding announce
  sent-announce l args p s (c, e) n d =
      let live : IsLiveClient l.heap p = (c, s.others p n ∙ e) in
      let sent =
        send_to_all-delivery ch
          (command_of l.heap u (codes "MODE")
            ((channel l.heap ch).name ++ codes " " ++ l.applied ++ l.applied_args))
          l.heap p live (rw s.same_members d) in
      rw (line-announce ch u h l args s) (
        ground (
          arith,
          sent,
          s.same_members,
          line-announce ch u h l args s,
          same_client h l.heap p (s.others p n),
        ))

  settings-announce :
      (l : ModeLoop) → settings_of (channel (announce ch u l) ch) ≡ settings_of (channel l.heap ch)
  unfolding announce
  settings-announce l =
      if_both (λ k. settings_of (channel k ch) ≡ settings_of (channel l.heap ch))
        (not (is_empty l.applied)) _ _
        (λ e. ap settings_of (channel-silent l.heap _ (quiet-send_to_all ch _ l.heap) ch))
        (λ e. refl)

-- If a channel is there with distinct members and the user is an operator of it, then a MODE
-- command with letters sets what a client reads off the letters and parameters that are
-- announced, starting from the settings before; and the announcement, if there are such letters,
-- is appended once to the write buffer of each member but the user, and nothing to that of
-- another client that is there and is not the user.
pub handle_mode-announced :
    (ch u : ℕ) (modes : Text) (params : List Text) (h : Heap) (p : ℕ)
    → IsLiveChannel h ch
    → Distinct (channel h ch).members
    → is_empty modes ≡ false
    → is_operator (channel h ch) u ≡ true
    → IsLiveClient h p
    → u == p ≡ false
    → let h' : Heap = handle_mode ch u modes params h in
      let applied : Text = (letters_run ch u modes params h).applied in
      (args : List Text) × (settings_of (channel h' ch)
        ≡ (read_modes applied (begin args (settings_of (channel h ch)))).settings)
      × (sent_to h' p ≡ (
          if not (is_empty applied) && is_member (channel h ch) p
          then sent_to h p ++ wire (mode_line ch u applied args h)
          else sent_to h p))
unfolding handle_mode
handle_mode-announced ch u modes params h p live d e o lp n =
    let l = letters_run ch u modes params h in
    let (args, s) =
      Good-mode_letters ch u h params modes (start_modes h) (Faithful-start_modes ch u h live) in
    let read =
      subst
        (λ xs.
          read_modes l.applied (begin xs (settings_of (channel h ch)))
          ≡ reading l [] (settings_of (channel l.heap ch)))
        (append-nil args) (s.reads []) in
    (
      args,
      rw (e, o) (settings-announce ch u h l ∙ sym (ap (λ (r : Reading). r.settings) read)),
      rw (e, o) (sent-announce ch u h l args p s lp n d),
    )
