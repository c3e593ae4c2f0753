-- ===== src/Heap/Quiet.antt =====
-- A heap without the write buffers: what messages leave alone.
use mathlib.Core.Option
use ft_irc.Base.{
  ℕ, ◌≡◌, refl, ap, fun_ext, ◌∙◌, Bool, true, false, Option, none, some, List, [], ◌∷◌, arith, Text,
  ◌==◌, if◌then◌else◌, contains,
}
use ft_irc.Client.{Client, new_client, send_reply}
use ft_irc.Channel.{Channel}
use ft_irc.Heap.{
  Heap, client, channel, on_client, on_channel, send_to_one, send_each, send_to_all,
  send_each_except, send_to_all_except, notify_members, notify_channels, broadcast_quit,
  broadcast_nick_change,
}

abbrev pub core : Client → Client
core c = record c { write_buffer = [] }

abbrev pub quiet : Heap → Heap
quiet h = record h { client_at = λ p. Option.map core (h.client_at p) }

pub client-quiet : (h : Heap) (p : ℕ) → client (quiet h) p ≡ core (client h p)
unfolding client new_client
client-quiet h p = ground arith

pub channel-quiet : (h : Heap) (p : ℕ) → channel (quiet h) p ≡ channel h p
unfolding channel
channel-quiet h p = refl

abbrev with_clients : Heap → (ℕ → Option Client) → Heap
with_clients h f = record h { client_at = f }

pub quiet-send_to_one :
    (user : ℕ) (message : Text) (h : Heap) → quiet (send_to_one user message h) ≡ quiet h
unfolding send_to_one on_client send_reply
quiet-send_to_one user message h = ap (with_clients h) (fun_ext λ q. ground arith)

pub quiet-send_each :
    (ms : List ℕ) (message : Text) (h : Heap) → quiet (send_each ms message h) ≡ quiet h
unfolding send_each
quiet-send_each [] message h = refl
quiet-send_each (m ∷ ms) message h =
    quiet-send_each ms message (send_to_one m message h) ∙ quiet-send_to_one m message h

pub quiet-send_to_all :
    (ch : ℕ) (message : Text) (h : Heap) → quiet (send_to_all ch message h) ≡ quiet h
unfolding send_to_all
quiet-send_to_all ch message h = quiet-send_each (channel h ch).members message h

quiet-if :
    (b : Bool) (h k g : Heap)
    → quiet h ≡ quiet g
    → quiet k ≡ quiet g
    → quiet (if b then h else k) ≡ quiet g
quiet-if true h k g p q = p
quiet-if false h k g p q = q

pub quiet-send_each_except :
    (except : ℕ) (ms : List ℕ) (message : Text) (h : Heap)
    → quiet (send_each_except except ms message h) ≡ quiet h
unfolding send_each_except
quiet-send_each_except except [] message h = refl
quiet-send_each_except except (m ∷ ms) message h =
    quiet-send_each_except except ms message (if m == except then h else send_to_one m message h)
    ∙ quiet-if (m == except) h (send_to_one m message h) h refl (quiet-send_to_one m message h)

pub quiet-send_to_all_except :
    (ch except : ℕ) (message : Text) (h : Heap)
    → quiet (send_to_all_except ch except message h) ≡ quiet h
unfolding send_to_all_except
quiet-send_to_all_except ch except message h =
    quiet-send_each_except except (channel h ch).members message h

pub quiet-notify_members :
    (notice : Text) (ms notified : List ℕ) (h : Heap)
    → quiet (notify_members notice ms notified h).1 ≡ quiet h
unfolding notify_members
quiet-notify_members notice [] notified h = refl
quiet-notify_members notice (m ∷ ms) notified h =
    quiet-notify_members notice ms _ (if contains notified m then h else send_to_one m notice h)
    ∙ quiet-if (contains notified m) h (send_to_one m notice h) h refl
        (quiet-send_to_one m notice h)

pub quiet-notify_channels :
    (notice : Text) (chs notified : List ℕ) (h : Heap)
    → quiet (notify_channels notice chs notified h) ≡ quiet h
unfolding notify_channels
quiet-notify_channels notice [] notified h = refl
quiet-notify_channels notice (ch ∷ chs) notified h =
    quiet-notify_channels notice chs _ _
    ∙ quiet-notify_members notice (channel h ch).members notified h

pub quiet-broadcast_quit :
    (this : ℕ) (notice : Text) (h : Heap) → quiet (broadcast_quit this notice h) ≡ quiet h
unfolding broadcast_quit
quiet-broadcast_quit this notice h = quiet-notify_channels notice _ _ h

pub quiet-broadcast_nick_change :
    (this : ℕ) (notice : Text) (h : Heap) → quiet (broadcast_nick_change this notice h) ≡ quiet h
unfolding broadcast_nick_change
quiet-broadcast_nick_change this notice h =
    quiet-notify_channels notice _ _ (send_to_one this notice h) ∙ quiet-send_to_one this notice h

-- A change of a channel, and a change of a client that does not look at the buffer, can be made on
-- the quiet heap as well.
pub quiet-on_channel :
    (p : ℕ) (f : Channel → Channel) (h : Heap) → quiet (on_channel p f h) ≡ on_channel p f (quiet h)
unfolding on_channel
quiet-on_channel p f h = refl

map-core :
    (f : Client → Client)
    → ((c : Client) → core (f c) ≡ f (core c))
    → (o : Option Client) → Option.map core (Option.map f o) ≡ Option.map f (Option.map core o)
map-core f e none = refl
map-core f e (some c) = ap some (e c)

pub quiet-on_client :
    (p : ℕ) (f : Client → Client) (h : Heap)
    → ((c : Client) → core (f c) ≡ f (core c))
    → quiet (on_client p f h) ≡ on_client p f (quiet h)
unfolding on_client
quiet-on_client p f h e =
    ap (with_clients h) (fun_ext λ q. ground (arith, map-core f e (h.client_at q)))

-- The object at an address.
abbrev pub IsLiveClient : Heap → ℕ → Type 0
IsLiveClient h p = (c : Client) × (h.client_at p ≡ some c)

abbrev pub IsLiveChannel : Heap → ℕ → Type 0
IsLiveChannel h p = (c : Channel) × (h.channel_at p ≡ some c)

pub client-on_client :
    (p : ℕ) (f : Client → Client) (h : Heap) (q : ℕ)
    → IsLiveClient h p
    → client (on_client p f h) q ≡ (if p == q then f (client h p) else client h q)
unfolding client on_client
client-on_client p f h q (c, e) = ground arith

pub client-on_channel :
    (p : ℕ) (f : Channel → Channel) (h : Heap) (q : ℕ) → client (on_channel p f h) q ≡ client h q
unfolding client on_channel
client-on_channel p f h q = refl

pub channel-on_channel :
    (p : ℕ) (f : Channel → Channel) (h : Heap) (q : ℕ)
    → IsLiveChannel h p
    → channel (on_channel p f h) q ≡ (if p == q then f (channel h p) else channel h q)
unfolding channel on_channel
channel-on_channel p f h q (c, e) = ground arith

pub channel-on_client :
    (p : ℕ) (f : Client → Client) (h : Heap) (q : ℕ) → channel (on_client p f h) q ≡ channel h q
unfolding channel on_client
channel-on_client p f h q = refl
