-- ===== src/Tests/Texts.antt =====
-- The theorems on texts, at concrete inputs.
use ft_irc.Base.{
  zero, suc, ℕ, ◌≤◌, ◌<◌, ◌≡◌, some, [], ◌∷◌, ◌++◌, List, Text, codes, length, take, false, refl,
  arith, ◌⊎◌, true, ◌||◌, ◌&&◌, not, is_empty, find, leb, if◌then◌else◌, suc,
}
use ft_irc.Reply.{c_toupper}
use ft_irc.Utf8.{cut_line, truncate_utf8, is_continuation, byte_at}
use ft_irc.Utf8.Boundary.{cut_line-boundary, truncate_utf8-boundary, is_dropped}
use ft_irc.Parse.Message.{
  Message, spliter, upper, without_cr, split_prefix, skip_spaces, split_command, split_space,
  parameters,
}
use ft_irc.Parse.RoundTrip.{spliter-print, print_message}
use ft_irc.Parse.Bounds.{spliter-parameters}
use ft_irc.Channel.{parse_limit, all_digits, is_digit}
use ft_irc.Channel.Limits.{parse_limit-bounds}
use ft_irc.Client.{Client, new_client, try_complete_registration}
use ft_irc.Client.{pop_line}
use ft_irc.Client.Framing.{pop_line-framed}
use ft_irc.Client.Registration.{try_complete_registration_lem}

abbrev long_line : ℕ → Text
long_line n = take n (codes "ab" ++ 0xC3 ∷ 0xA9 ∷ codes "cd")

-- Characters of two bytes behind one of one byte.
abbrev wide : ℕ → Text
wide zero = []
wide (suc n) = 0xC3 ∷ 0xA9 ∷ wide n

cut_line-boundary_example :
    let s : Text = b'a' ∷ wide 300 in
    let n : ℕ = length (cut_line s) in
    (n ≤ 510)
    × (take n s ≡ cut_line s)
    × (if leb (length s) 510
        then cut_line s ≡ s
        else (507 ≤ n)
          × ((n ≡ 507) ⊎ (is_continuation (byte_at s n) ≡ false))
          × (is_dropped n 510 510 && not (is_continuation (byte_at s 510)) ≡ false))
cut_line-boundary_example = cut_line-boundary (b'a' ∷ wide 300) 510

-- The cut falls in front of a character of two bytes, and byte 3 is its second.
truncate_utf8-boundary_example :
    let n : ℕ = length (truncate_utf8 (long_line 6) 3) in
    (take n (long_line 6) ≡ truncate_utf8 (long_line 6) 3)
    × (if leb (length (long_line 6)) 3
        then truncate_utf8 (long_line 6) 3 ≡ long_line 6
        else (n ≤ 3)
          × ((n ≡ 0) ⊎ (is_continuation (byte_at (long_line 6) n) ≡ false))
          × (is_dropped n 3 3 && not (is_continuation (byte_at (long_line 6) 3)) ≡ false))
truncate_utf8-boundary_example = truncate_utf8-boundary (long_line 6) 3 3

abbrev targets : List Text
targets = codes "#room" ∷ []

spliter-print_example :
    spliter (print_message (codes "privmsg") targets (codes "a b"))
    ≡ some (record {
      prefix = [];
      exist_prefix = false;
      command = upper (codes "privmsg");
      parameter = targets ++ codes "a b" ∷ [];
    })
unfolding find codes
spliter-print_example =
    spliter-print (codes "privmsg") targets (codes "a b") refl refl (omega arith) (omega arith) refl
      refl

abbrev ping_message : Message
ping_message = record {
  prefix = [];
  exist_prefix = false;
  command = codes "PING";
  parameter = codes "x" ∷ [];
}

ping-parsed : spliter (codes "ping x") ≡ some ping_message
unfolding spliter codes find cut_line without_cr split_prefix skip_spaces split_command split_space
    upper parameters c_toupper
ping-parsed = refl

spliter-parameters_example : length ping_message.parameter ≤ 15
spliter-parameters_example = spliter-parameters (codes "ping x") ping_message ping-parsed

limit-parsed : parse_limit (codes "25") ≡ some 25
unfolding parse_limit codes all_digits is_digit
limit-parsed = refl

parse_limit-bounds_example : (0 < 25) × (25 < 1000000000)
parse_limit-bounds_example = parse_limit-bounds (codes "25") 25 limit-parsed

abbrev half_registered : Client
half_registered = record (new_client 4 0) { is_password_verified = true; nickname = codes "ann" }

try_complete_registration_lem_example :
    (try_complete_registration half_registered).is_registered ≡ (
      half_registered.is_registered
      || half_registered.is_password_verified
        && not (is_empty half_registered.nickname)
        && not (is_empty half_registered.username))
try_complete_registration_lem_example = try_complete_registration_lem half_registered

abbrev two_lines : Client
two_lines = record (new_client 4 0) { read_buffer = codes "PING x" ++ 13 ∷ 10 ∷ codes "NICK a" }

pop_line-framed_example :
    ((pop_line two_lines).0 ≡ codes "PING x")
    × ((pop_line two_lines).1 ≡ record two_lines { read_buffer = codes "NICK a" })
unfolding find codes
pop_line-framed_example = pop_line-framed two_lines (codes "PING x") (codes "NICK a") refl refl
