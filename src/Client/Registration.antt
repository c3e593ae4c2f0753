-- ===== src/Client/Registration.antt =====
-- When a connection becomes a registered client: tryCompleteRegistration of Client.cpp.
use ft_irc.Base.{◌≡◌, ◌&&◌, ◌||◌, not, is_empty, if_both, arith, true}
use ft_irc.Client.{Client, send_reply, try_complete_registration}

-- After `tryCompleteRegistration` a client is registered just if it was before, or its password
-- is verified and neither its nickname nor its user name is empty.
pub try_complete_registration_lem :
    (c : Client)
    → (try_complete_registration c).is_registered ≡ (
        c.is_registered
        || c.is_password_verified && not (is_empty c.nickname) && not (is_empty c.username))
unfolding try_complete_registration send_reply
try_complete_registration_lem c =
    if_both
      (λ (d : Client). d.is_registered ≡ (
        c.is_registered
        || c.is_password_verified && not (is_empty c.nickname) && not (is_empty c.username)))
      (not c.is_registered
        && c.is_password_verified
        && not (is_empty c.nickname)
        && not (is_empty c.username))
      _ _ (λ e. ground (arith, e)) (λ e. ground (arith, e))

pub nickname-try_complete_registration :
    (c : Client) → (try_complete_registration c).nickname ≡ c.nickname
unfolding try_complete_registration send_reply
nickname-try_complete_registration c = ground arith

pub fd-try_complete_registration : (c : Client) → (try_complete_registration c).fd ≡ c.fd
unfolding try_complete_registration send_reply
fd-try_complete_registration c = ground arith

pub verified-try_complete_registration :
    (c : Client) → (try_complete_registration c).is_password_verified ≡ c.is_password_verified
unfolding try_complete_registration send_reply
verified-try_complete_registration c = ground arith

pub username-try_complete_registration :
    (c : Client) → (try_complete_registration c).username ≡ c.username
unfolding try_complete_registration send_reply
username-try_complete_registration c = ground arith

pub registered-try_complete_registration :
    (c : Client) → c.is_registered ≡ true → (try_complete_registration c).is_registered ≡ true
unfolding try_complete_registration
registered-try_complete_registration c r = ground (arith, r)
