-- ===== src/Links/Settings.antt =====
-- Changes of one channel: its flags, key, limit and topic, and its operators.
use ft_irc.Base.{
  ℕ, ◌≡◌, Bool, true, false, arith, ◌==◌, remove, push_back, contains-remove, contains-push_back,
  Distinct-remove, Distinct-push_back, Bool-cases, inl, inr,
}
use ft_irc.Map.{text_key}
use ft_irc.Channel.{Channel, is_member, is_operator, add_operator, set_mode_operator}
use ft_irc.Heap.{Heap, channel, on_channel}
use ft_irc.Heap.Quiet.{IsLiveChannel, client-on_channel, channel-on_channel}
use ft_irc.Heap.Live.{of_live-on_channel}
use ft_irc.Links.{IsRoom, Linked, names-keep, IsSettled, IsSettled-if}
use ft_irc.Links.Leave.{IsRoom-if}

-- A change that leaves alone who is in the channel and who is invited, and keeps a room a room.
pub record KeepsPeople (f : Channel → Channel) (c : Channel) : Type 0 where
  pub same_name : (f c).name ≡ c.name
  pub same_members : (f c).members ≡ c.members
  pub same_invited : (f c).invited_users ≡ c.invited_users
  pub room : IsRoom c → IsRoom (f c)
  pub settled : IsSettled c → IsSettled (f c)

pub Linked-on_channel :
    (ch : ℕ) (f : Channel → Channel) (h : Heap)
    → IsLiveChannel h ch
    → KeepsPeople f (channel h ch)
    → Linked h
    → Linked (on_channel ch f h)
Linked-on_channel ch f h lc k l = record {
  rooms = λ x.
      rw (channel-on_channel ch f h x lc)
        (IsRoom-if (ch == x) _ _ (k.room (l.rooms ch)) (l.rooms x));
  settled = λ x.
      rw (channel-on_channel ch f h x lc)
        (IsSettled-if (ch == x) _ _ (k.settled (l.settled ch)) (l.settled x));
  member_joined = λ x p.
      rw (channel-on_channel ch f h x lc, client-on_channel ch f h p)
        (λ e. ground (arith, k.same_name, k.same_members, l.member_joined x p));
  joined_member = λ p name x.
      rw (channel-on_channel ch f h x lc, client-on_channel ch f h p)
        (λ e. ground (arith, k.same_name, k.same_members, l.joined_member p name x));
  invited_both = λ x p.
      rw (channel-on_channel ch f h x lc, client-on_channel ch f h p)
        (ground (arith, k.same_invited, l.invited_both x p));
  keys = λ p. rw (client-on_channel ch f h p) (l.keys p);
  names =
      names-keep h _ (of_live-on_channel ch f h)
        (λ x. rw (channel-on_channel ch f h x lc) (ground (arith, k.same_name))) l.names;
}

-- A change of the flags, the key, the limit or the topic.
pub record KeepsLists (f : Channel → Channel) (c : Channel) : Type 0 where
  pub same_name : (f c).name ≡ c.name
  pub same_members : (f c).members ≡ c.members
  pub same_operators : (f c).operators ≡ c.operators
  pub same_invited : (f c).invited_users ≡ c.invited_users
  pub settled : IsSettled c → IsSettled (f c)

pub KeepsPeople-of-lists : {f : Channel → Channel} {c : Channel} → KeepsLists f c → KeepsPeople f c
KeepsPeople-of-lists {f} {c} k = record {
  same_name = k.same_name;
  same_members = k.same_members;
  same_invited = k.same_invited;
  room = λ r. record {
    operators_in = λ p. rw (k.same_operators, k.same_members) (r.operators_in p);
    invited_out = λ p. rw (k.same_invited, k.same_members) (r.invited_out p);
    members_distinct = rw k.same_members r.members_distinct;
    operators_distinct = rw k.same_operators r.operators_distinct;
    invited_distinct = rw k.same_invited r.invited_distinct;
  };
  settled = k.settled;
}

IsRoom-push_operator :
    (u : ℕ) (c : Channel)
    → is_member c u ≡ true
    → is_operator c u ≡ false
    → IsRoom c
    → IsRoom (record c { operators = push_back c.operators u })
IsRoom-push_operator u c m o r = record {
  operators_in = λ p e. ground (arith, contains-push_back c.operators u p, r.operators_in p);
  invited_out = r.invited_out;
  members_distinct = r.members_distinct;
  operators_distinct = Distinct-push_back c.operators u r.operators_distinct o;
  invited_distinct = r.invited_distinct;
}

IsRoom-drop_operator :
    (u : ℕ) (c : Channel) → IsRoom c → IsRoom (record c { operators = remove u c.operators })
IsRoom-drop_operator u c r = record {
  operators_in = λ p e. ground (arith, contains-remove u c.operators p, r.operators_in p);
  invited_out = r.invited_out;
  members_distinct = r.members_distinct;
  operators_distinct = Distinct-remove u c.operators r.operators_distinct;
  invited_distinct = r.invited_distinct;
}

pub set_mode_operator-KeepsPeople :
    (enable : Bool) (u : ℕ) (c : Channel)
    → is_member c u ≡ true
    → KeepsPeople (set_mode_operator enable u) c
unfolding set_mode_operator
set_mode_operator-KeepsPeople enable u c m = record {
  same_name = ground arith;
  same_members = ground arith;
  same_invited = ground arith;
  room = λ r. elim (Bool-cases enable) [
    | inl e ↦ elim (Bool-cases (is_operator c u)) [
      | inl o ↦ rw (e, o) r
      | inr o ↦ rw (e, o) (IsRoom-push_operator u c m o r)
    ]
    | inr e ↦ elim (Bool-cases (is_operator c u)) [
      | inl o ↦ rw (e, o) (IsRoom-drop_operator u c r)
      | inr o ↦ rw (e, o) r
    ]
  ];
  settled = λ k. ground (arith, k);
}

pub add_operator-KeepsPeople :
    (u : ℕ) (c : Channel) → is_member c u ≡ true → KeepsPeople (add_operator u) c
unfolding add_operator
add_operator-KeepsPeople u c m = record {
  same_name = ground arith;
  same_members = ground arith;
  same_invited = ground arith;
  room = λ r. elim (Bool-cases (is_operator c u)) [
    | inl o ↦ rw o r
    | inr o ↦ rw o (IsRoom-push_operator u c m o r)
  ];
  settled = λ k. ground (arith, k);
}
