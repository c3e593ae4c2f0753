-- ===== src/Heap/Delivery.antt =====
-- Who is sent what by sendToAll and sendToAllExcept of channel/Channel.cpp.
use ft_irc.Base.{
  ℕ, ◌≡◌, ◌==◌, ◌&&◌, not, refl, List, [], ◌∷◌, ◌++◌, if◌then◌else◌, contains, Distinct, Text,
  Bool-cases, inl, inr, arith,
}
use ft_irc.Client.{wire, send_reply}
use ft_irc.Heap.{
  Heap, client, channel, send_to_one, on_client, send_each, send_each_except, send_to_all,
  send_to_all_except,
}
use ft_irc.Heap.Quiet.{IsLiveClient, quiet-send_to_one}
use ft_irc.Heap.Silent.{IsLiveClient-silent}

abbrev pub sent_to : Heap → ℕ → Text
sent_to h p = (client h p).write_buffer

pub sent-one :
    (m : ℕ) (message : Text) (h : Heap) (p : ℕ)
    → IsLiveClient h p
    → sent_to (send_to_one m message h) p
      ≡ (if m == p then sent_to h p ++ wire message else sent_to h p)
unfolding send_to_one client send_reply on_client
sent-one m message h p (c, e) = ground arith

sent-each_except :
    (except : ℕ) (ms : List ℕ) (message : Text) (h : Heap) (p : ℕ)
    → IsLiveClient h p
    → Distinct ms
    → sent_to (send_each_except except ms message h) p
      ≡ (if contains ms p && not (p == except) then sent_to h p ++ wire message else sent_to h p)
unfolding send_each_except contains
sent-each_except except [] message h p l d = refl
sent-each_except except (m ∷ ms) message h p l d = elim (Bool-cases (m == except)) [
  | inl e ↦ rw e (ground (arith, sent-each_except except ms message h p l d.1, e, d.0))
  | inr e ↦ rw e (
      ground (
        arith,
        sent-each_except except ms message (send_to_one m message h) p
            (IsLiveClient-silent h _ (quiet-send_to_one m message h) p l) d.1,
        sent-one m message h p l,
        e,
        d.0,
      ))
]

-- If the members of a channel are distinct, a message to all but one appends the line to the
-- write buffer of each other member once, and leaves that of every other client that is there.
pub send_to_all_except-delivery :
    (ch except : ℕ) (message : Text) (h : Heap) (p : ℕ)
    → IsLiveClient h p
    → Distinct (channel h ch).members
    → sent_to (send_to_all_except ch except message h) p ≡ (
        if contains (channel h ch).members p && not (p == except)
        then sent_to h p ++ wire message
        else sent_to h p)
unfolding send_to_all_except
send_to_all_except-delivery ch except message h p l d =
    sent-each_except except (channel h ch).members message h p l d

sent-each :
    (ms : List ℕ) (message : Text) (h : Heap) (p : ℕ)
    → IsLiveClient h p
    → Distinct ms
    → sent_to (send_each ms message h) p
      ≡ (if contains ms p then sent_to h p ++ wire message else sent_to h p)
unfolding send_each contains
sent-each [] message h p l d = refl
sent-each (m ∷ ms) message h p l d = ground (
  arith,
  sent-each ms message (send_to_one m message h) p
      (IsLiveClient-silent h _ (quiet-send_to_one m message h) p l) d.1,
  sent-one m message h p l,
  d.0,
)

-- If the members of a channel are distinct, a message to all appends the line to the write
-- buffer of each member once, and leaves that of every other client that is there.
pub send_to_all-delivery :
    (ch : ℕ) (message : Text) (h : Heap) (p : ℕ)
    → IsLiveClient h p
    → Distinct (channel h ch).members
    → sent_to (send_to_all ch message h) p
      ≡ (if contains (channel h ch).members p then sent_to h p ++ wire message else sent_to h p)
unfolding send_to_all
send_to_all-delivery ch message h p l d = sent-each (channel h ch).members message h p l d
