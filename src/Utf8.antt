-- ===== src/Utf8.antt =====
-- The cuts that keep a line within its limit: the loops of Client::sendReply (Client.cpp),
-- Message::spliter (parse/Message.cpp) and truncateUtf8 (channel/Channel.cpp).
pub mod Boundary
use Prim.Native.Nat.{bit_and}
use ft_irc.Base.{
  ℕ, zero, suc, ◌-◌, Bool, none, some, Text, ◌==◌, leb, if◌then◌else◌, length, take, get_elem?,
}

-- `s[i]`; at the end a `std::string` holds its '\0'.
unfoldable pub byte_at : Text → ℕ → ℕ
byte_at s i = elim (get_elem? s i) [ none ↦ 0 | some c ↦ c ]

-- `(static_cast<unsigned char>(c) & 0xC0) == 0x80`
unfoldable pub is_continuation : ℕ → Bool
is_continuation c = bit_and c 0xC0 == 0x80

-- `for (int back = 0; back < 3 && ...; ++back) --cut;` with the rounds that are left.
unfoldable pub back_off : ℕ → Text → ℕ → ℕ
back_off zero s cut = cut
back_off (suc rounds) s cut =
    let next = back_off rounds s (cut - 1) in if is_continuation (byte_at s cut) then next else cut

-- The first 510 bytes, or up to 3 fewer.
unfoldable pub cut_line : Text → Text
cut_line s = if leb (length s) 510 then s else take (back_off 3 s 510) s

-- `while (cut > 0 && ...) --cut;`
unfoldable pub retreat : Text → ℕ → ℕ
retreat s zero = zero
retreat s (suc cut) =
    let next = retreat s cut in if is_continuation (byte_at s (suc cut)) then next else suc cut

unfoldable pub truncate_utf8 : Text → ℕ → Text
truncate_utf8 s max_bytes = if leb (length s) max_bytes then s else take (retreat s max_bytes) s
