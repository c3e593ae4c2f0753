-- ===== src/Handlers/Refusals.antt =====
-- What handleJoin, handleKick, handleInvite and handlePart of channel/Channel.cpp do with a
-- request that they refuse.
use ft_irc.Heap.{client, channel, send_to_one, Heap}
use ft_irc.Client.{wire}
use ft_irc.Handlers.Member.{handle_join, reply_to, handle_kick, handle_invite, handle_part}
use ft_irc.Channel.{check_key, is_full, is_invited, is_member, is_operator, Channel}
use ft_irc.Heap.Silent.{Silent}
use ft_irc.Heap.Delivery.{sent_to, sent-one}
use ft_irc.Heap.Quiet.{quiet-send_to_one, IsLiveClient}
use ft_irc.Base.{
  ltb, leb, ◌==◌, if◌then◌else◌, not, length, is_empty, Text, codes, text_eq, ℕ, ◌≡◌, ◌&&◌, Option,
  none, some, ◌++◌, sym, ap, subst, ◌∙◌, arith,
}

-- One line goes to the client, and nothing else is changed.
abbrev pub OnlyAnswers : ℕ → Text → Heap → Heap → Type 0
OnlyAnswers u reply h h' =
    Silent h h'
    × ((p : ℕ)
        → IsLiveClient h p
        → sent_to h' p ≡ (if u == p then sent_to h p ++ wire reply else sent_to h p))

only_answers : (u : ℕ) (reply : Text) (h : Heap) → OnlyAnswers u reply h (send_to_one u reply h)
only_answers u reply h = (quiet-send_to_one u reply h, sent-one u reply h)

-- The numeric and the text of the refusal, where there is one.
abbrev pub join_refusal : Channel → ℕ → Text → Option (ℕ × Text)
join_refusal c user key =
    if is_member c user
    then none
    else if not (is_empty c.key) && not (text_eq c.key key)
    then some (475, c.name ++ codes " :Cannot join channel (+k)")
    else if c.invite_only && not (is_invited c user)
    then some (473, c.name ++ codes " :Cannot join channel (+i)")
    else if ltb 0 c.user_limit && leb c.user_limit (length c.members)
    then some (471, c.name ++ codes " :Cannot join channel (+l)")
    else none

abbrev pub part_refusal : Channel → ℕ → Option (ℕ × Text)
part_refusal c user =
    if not (is_member c user)
    then some (442, c.name ++ codes " :You're not on that channel")
    else none

abbrev pub kick_refusal : Channel → ℕ → ℕ → Text → Option (ℕ × Text)
kick_refusal c kicking kicked nickname =
    if not (is_member c kicking)
    then some (442, c.name ++ codes " :You're not on that channel")
    else if not (is_operator c kicking)
    then some (482, c.name ++ codes " :You're not channel operator")
    else if not (is_member c kicked)
    then some (441, nickname ++ codes " " ++ c.name ++ codes " :They aren't on that channel")
    else none

abbrev pub invite_refusal : Channel → ℕ → ℕ → Text → Option (ℕ × Text)
invite_refusal c inviting invited nickname =
    if not (is_member c inviting)
    then some (442, c.name ++ codes " :You're not on that channel")
    else if c.invite_only && not (is_operator c inviting)
    then some (482, c.name ++ codes " :You're not channel operator")
    else if not (is_invited c invited) && is_member c invited
    then some (443, nickname ++ codes " " ++ c.name ++ codes " :is already on channel")
    else none

-- The request is refused with a reply to the client, or granted.
abbrev decided : Option (ℕ × Text) → ℕ → Heap → Heap → Heap
decided none u h granted = granted
decided (some (code, text)) u h granted = send_to_one u (reply_to h u code text) h

refused-answers :
    (r : Option (ℕ × Text)) (u : ℕ) (h h' granted : Heap) (code : ℕ) (text : Text)
    → h' ≡ decided r u h granted
    → r ≡ some (code, text)
    → OnlyAnswers u (reply_to h u code text) h h'
refused-answers r u h h' granted code text d e =
    subst (OnlyAnswers u (reply_to h u code text) h) (sym (d ∙ ap (λ q. decided q u h granted) e))
      (only_answers u (reply_to h u code text) h)

module _ (ch u : ℕ) (h : Heap) where
  handle_join-decided :
      (key : Text)
      → handle_join ch u key h
        ≡ decided (join_refusal (channel h ch) u key) u h (handle_join ch u key h)
  unfolding handle_join check_key is_full
  handle_join-decided key = ground arith

  pub handle_join-refuses :
      (key : Text) (code : ℕ) (text : Text)
      → join_refusal (channel h ch) u key ≡ some (code, text)
      → OnlyAnswers u (reply_to h u code text) h (handle_join ch u key h)
  handle_join-refuses key code text =
      refused-answers _ u h _ (handle_join ch u key h) code text (handle_join-decided key)

  handle_part-decided :
      (message : Text)
      → handle_part ch u message h
        ≡ decided (part_refusal (channel h ch) u) u h (handle_part ch u message h)
  unfolding handle_part
  handle_part-decided message = ground arith

  pub handle_part-refuses :
      (message : Text) (code : ℕ) (text : Text)
      → part_refusal (channel h ch) u ≡ some (code, text)
      → OnlyAnswers u (reply_to h u code text) h (handle_part ch u message h)
  handle_part-refuses message code text =
      refused-answers _ u h _ (handle_part ch u message h) code text (handle_part-decided message)

  handle_kick-decided :
      (kicked : ℕ) (comment : Text)
      → handle_kick ch u kicked comment h
        ≡ decided
            (kick_refusal (channel h ch) u kicked (client h kicked).nickname)
            u
            h
            (handle_kick ch u kicked comment h)
  unfolding handle_kick
  handle_kick-decided kicked comment = ground arith

  pub handle_kick-refuses :
      (kicked : ℕ) (comment : Text) (code : ℕ) (text : Text)
      → kick_refusal (channel h ch) u kicked (client h kicked).nickname ≡ some (code, text)
      → OnlyAnswers u (reply_to h u code text) h (handle_kick ch u kicked comment h)
  handle_kick-refuses kicked comment code text =
      refused-answers _ u h _ (handle_kick ch u kicked comment h) code text
        (handle_kick-decided kicked comment)

  handle_invite-decided :
      (invited : ℕ)
      → handle_invite ch u invited h
        ≡ decided
            (invite_refusal (channel h ch) u invited (client h invited).nickname)
            u
            h
            (handle_invite ch u invited h)
  unfolding handle_invite
  handle_invite-decided invited = ground arith

  pub handle_invite-refuses :
      (invited : ℕ) (code : ℕ) (text : Text)
      → invite_refusal (channel h ch) u invited (client h invited).nickname ≡ some (code, text)
      → OnlyAnswers u (reply_to h u code text) h (handle_invite ch u invited h)
  handle_invite-refuses invited code text =
      refused-answers _ u h _ (handle_invite ch u invited h) code text
        (handle_invite-decided invited)
