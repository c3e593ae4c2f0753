-- ===== src/Safe/Rooms.antt =====
-- The invariant through the commands of Commands/Rooms.antt but JOIN.
use ft_irc.Server.Changes.{Keeps-Moves, Keeps-say}
use ft_irc.Server.Sweep.{Keeps-swept}
use ft_irc.Reply.{to_lower}
use ft_irc.Server.{on_heap, find_channel, client_by_nickname, find_client_by_nickname, Server}
use ft_irc.Heap.{client, channel, Heap}
use ft_irc.Map.{Map, values}
use ft_irc.Map.Each.{Each}
use ft_irc.Commands.Rooms.{
  invite, kick, part, privmsg, topic, invite_to, invite_params, kick_from, kick_params, part_from,
  part_params, handle_personal_privmsg, privmsg_to, privmsg_params, topic_of, topic_params,
}
use ft_irc.Parse.Message.{Message}
use ft_irc.Channel.{is_member, is_operator}
use ft_irc.Heap.Quiet.{IsLiveClient}
use ft_irc.Server.Keeps.{Keeps}
use ft_irc.Server.Inv.{ClientEntry, live_of_find_channel, Inv}
use ft_irc.Base.{
  not, Bool-cases, Option-cases, if_both, is_empty, Text, text_eq, ℕ, ◌≡◌, subst, inl, inr, Bool,
  true, false, ◌&&◌, some, List, [], ◌∷◌, arith, eq_self,
}
use ft_irc.Links.Handlers.{
  Moves-handle_part, Moves-handle_kick, Moves-handle_invite, Moves-handle_channel_privmsg,
  Moves-handle_topic,
}
use ft_irc.Links.Moves.{say}

live_by_nickname :
    (h : Heap) (nickname : Text) (m : Map ℕ ℕ) {p : ℕ}
    → Each (ClientEntry h) m
    → client_by_nickname h nickname (values m) ≡ some p
    → IsLiveClient h p
unfolding client_by_nickname
live_by_nickname h nickname [] e f = absurd (cc)
live_by_nickname h nickname ((fd, q) ∷ m) {p} e f =
    elim (Bool-cases (
      (client h q).is_registered && text_eq (to_lower (client h q).nickname) (to_lower nickname))) [
        | inl hit ↦ let same : q ≡ p = ground arith in subst (IsLiveClient h) same e.0.0
        | inr miss ↦ live_by_nickname h nickname m e.1 (rw miss at f)
      ]

pub live_of_nickname :
    (s : Server) (nickname : Text) {p : ℕ}
    → Inv s
    → find_client_by_nickname s nickname ≡ some p
    → IsLiveClient s.heap p
unfolding find_client_by_nickname
live_of_nickname s nickname v e = live_by_nickname s.heap nickname s.clients v.clients_in e

Keeps-invite_to :
    (c : ℕ) (nickname name : Text) (s : Server) → Inv s → Keeps s (invite_to c nickname name s)
unfolding invite_to
Keeps-invite_to c nickname name s v = elim (Option-cases (find_client_by_nickname s nickname)) [
  | inl e ↦ rw (e, invite_to) (Keeps-say s c _ v)
  | inr (target, e) ↦ elim (Option-cases (find_channel s name)) [
    | inl f ↦ rw (e, f, invite_to) (Keeps-say s c _ v)
    | inr (ch, f) ↦
        rw (e, f, invite_to)
          (Keeps-Moves s _ v (
            Moves-handle_invite ch c target s.heap (live_of_find_channel s name v f).0
              (live_of_nickname s nickname v e)))
  ]
]

Keeps-invite_params :
    (c : ℕ) (params : List Text) (s : Server) → Inv s → Keeps s (invite_params c params s)
unfolding invite_params
Keeps-invite_params c [] s v = Keeps-say s c _ v
Keeps-invite_params c (a ∷ []) s v = Keeps-say s c _ v
Keeps-invite_params c (a ∷ b ∷ more) s v = Keeps-invite_to c a b s v

pub Keeps-invite : (c : ℕ) (msg : Message) (s : Server) → Inv s → Keeps s (invite c msg s)
unfolding invite
Keeps-invite c msg s v = Keeps-invite_params c msg.parameter s v

-- A change of the heap does not change what a name leads to.
pub found_still :
    (s : Server) (f : Heap → Heap) (name : Text) {ch : ℕ}
    → find_channel s name ≡ some ch
    → find_channel (on_heap f s) name ≡ some ch
unfolding on_heap find_channel
found_still s f name e = e

Keeps-kick_from :
    (c : ℕ) (name nickname comment : Text) (s : Server)
    → Inv s
    → Keeps s (kick_from c name nickname comment s)
unfolding kick_from
Keeps-kick_from c name nickname comment s v = elim (Option-cases (find_channel s name)) [
  | inl e ↦ rw (e, kick_from) (Keeps-say s c _ v)
  | inr (ch, e) ↦ elim (Option-cases (find_client_by_nickname s nickname)) [
    | inl f ↦
        rw (e, f, kick_from)
          (if_both (Keeps s) (not (is_member (channel s.heap ch) c)) _ _ (λ n. Keeps-say s c _ v)
            (λ m.
              if_both (Keeps s) (not (is_operator (channel s.heap ch) c)) _ _
                (λ n. Keeps-say s c _ v) (λ o. Keeps-say s c _ v)))
    | inr (target, f) ↦
        rw (e, f, kick_from)
          (Keeps-swept ch name
            (Keeps-Moves s _ v (
              Moves-handle_kick ch c target comment s.heap (live_of_find_channel s name v e).0
                (live_of_nickname s nickname v f) (eq_self ch)))
            (found_still s _ name e))
  ]
]

Keeps-kick_params :
    (c : ℕ) (params : List Text) (s : Server) → Inv s → Keeps s (kick_params c params s)
unfolding kick_params
Keeps-kick_params c [] s v = Keeps-say s c _ v
Keeps-kick_params c (a ∷ []) s v = Keeps-say s c _ v
Keeps-kick_params c (a ∷ b ∷ []) s v = Keeps-kick_from c a b [] s v
Keeps-kick_params c (a ∷ b ∷ d ∷ more) s v = Keeps-kick_from c a b d s v

pub Keeps-kick : (c : ℕ) (msg : Message) (s : Server) → Inv s → Keeps s (kick c msg s)
unfolding kick
Keeps-kick c msg s v = Keeps-kick_params c msg.parameter s v

module _ (c : ℕ) (s : Server) (live : IsLiveClient s.heap c) (v : Inv s) where
  Keeps-part_from : (name comment : Text) → Keeps s (part_from c name comment s)
  unfolding part_from
  Keeps-part_from name comment = elim (Option-cases (find_channel s name)) [
    | inl e ↦ rw (e, part_from) (Keeps-say s c _ v)
    | inr (ch, e) ↦
        let there = (live_of_find_channel s name v e).0 in
        rw (e, part_from)
          (Keeps-swept ch name
            (Keeps-Moves s _ v (Moves-handle_part ch c s.heap there live comment (eq_self ch)))
            (found_still s _ name e))
  ]

  Keeps-part_params : (params : List Text) → Keeps s (part_params c params s)
  unfolding part_params
  Keeps-part_params [] = Keeps-say s c _ v
  Keeps-part_params (a ∷ []) = Keeps-part_from a []
  Keeps-part_params (a ∷ b ∷ more) = Keeps-part_from a b

  pub Keeps-part : (msg : Message) → Keeps s (part c msg s)
  unfolding part
  Keeps-part msg = Keeps-part_params msg.parameter

Keeps-privmsg_to :
    (c : ℕ) (name text : Text) (s : Server) → Inv s → Keeps s (privmsg_to c name text s)
unfolding privmsg_to handle_personal_privmsg
Keeps-privmsg_to c name text s v = elim (Option-cases (find_channel s name)) [
  | inr (ch, e) ↦
      rw (e, privmsg_to) (Keeps-Moves s _ v (Moves-handle_channel_privmsg ch c text s.heap))
  | inl e ↦ elim (Option-cases (find_client_by_nickname s name)) [
    | inl f ↦ rw (e, f, privmsg_to) (Keeps-say s c _ v)
    | inr (target, f) ↦ rw (e, f, privmsg_to) (Keeps-Moves s _ v (say target _ s.heap))
  ]
]

Keeps-privmsg_params :
    (c : ℕ) (params : List Text) (s : Server) → Inv s → Keeps s (privmsg_params c params s)
unfolding privmsg_params
Keeps-privmsg_params c [] s v = Keeps-say s c _ v
Keeps-privmsg_params c (name ∷ []) s v =
    if_both (Keeps s) (is_empty name) _ _ (λ e. Keeps-say s c _ v) (λ e. Keeps-say s c _ v)
Keeps-privmsg_params c (name ∷ text ∷ more) s v =
    if_both (Keeps s) (is_empty name) _ _ (λ e. Keeps-say s c _ v)
      (λ e.
        if_both (Keeps s) (is_empty text) _ _ (λ e. Keeps-say s c _ v)
          (λ e. Keeps-privmsg_to c name text s v))

pub Keeps-privmsg : (c : ℕ) (msg : Message) (s : Server) → Inv s → Keeps s (privmsg c msg s)
unfolding privmsg
Keeps-privmsg c msg s v = Keeps-privmsg_params c msg.parameter s v

Keeps-topic_of :
    (c : ℕ) (name topic : Text) (has_topic_param : Bool) (s : Server)
    → Inv s
    → Keeps s (topic_of c name topic has_topic_param s)
unfolding topic_of
Keeps-topic_of c name topic has_topic_param s v = elim (Option-cases (find_channel s name)) [
  | inl e ↦ rw (e, topic_of) (Keeps-say s c _ v)
  | inr (ch, e) ↦
      rw (e, topic_of)
        (Keeps-Moves s _ v (
          Moves-handle_topic ch c topic has_topic_param s.heap (live_of_find_channel s name v e).0))
]

Keeps-topic_params :
    (c : ℕ) (params : List Text) (s : Server) → Inv s → Keeps s (topic_params c params s)
unfolding topic_params
Keeps-topic_params c [] s v = Keeps-say s c _ v
Keeps-topic_params c (a ∷ []) s v = Keeps-topic_of c a [] false s v
Keeps-topic_params c (a ∷ b ∷ more) s v = Keeps-topic_of c a b true s v

pub Keeps-topic : (c : ℕ) (msg : Message) (s : Server) → Inv s → Keeps s (topic c msg s)
unfolding topic
Keeps-topic c msg s v = Keeps-topic_params c msg.parameter s v
