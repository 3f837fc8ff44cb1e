-- ===== src/Mouse.antt =====
-- io/mouse.c: onMousePacket, which collects the bytes of a packet and turns a whole packet into an
-- event. What the two ports give is a list of pairs of a status byte and a data byte, up to the first
-- status without the data bit.
pub mod Packets
pub mod Tests
use staxus.Base.{
  ℕ, zero, suc, ◌+◌, ◌-◌, ◌*◌, ◌/◌, ◌%◌, Bool, not, ◌&&◌, Option, none, some, List, [], ◌∷◌, ◌==◌,
  ltb, leb, if◌then◌else◌, set,
}

-- The static variables. `packet` has four bytes.
pub record Mouse : Type 0 where
  pub mouse_id : ℕ
  pub packet : List ℕ
  pub packet_ptr : ℕ
  pub mouse_x : ℕ
  pub mouse_y : ℕ
  pub mouse_buttons : ℕ

-- `MouseEvent`. `scroll_amount` is none where the source leaves the field unset.
pub record MouseEvent : Type 0 where
  pub prev_x : ℕ
  pub prev_y : ℕ
  pub prev_buttons : ℕ
  pub cur_x : ℕ
  pub cur_y : ℕ
  pub buttons : ℕ
  pub scroll_amount : Option ℕ

-- `(status & 0x20) != 0`: the byte is the mouse's.
abbrev pub from_mouse : ℕ → Bool
from_mouse status = not (status / 32 % 2 == 0)

-- The loop: each byte of the mouse goes to `packet[packetPtr++]`. This is its effect while there is room
-- in the array; the source does not exclude a write behind it, which is not modelled.
unfoldable pub collect : List (ℕ × ℕ) → Mouse → Mouse
collect [] s = s
collect ((status, byte) ∷ more) s =
    if from_mouse status
    then collect more (record s {
      packet = set s.packet s.packet_ptr byte;
      packet_ptr = (s.packet_ptr + 1) % 256;
    })
    else collect more s

abbrev pub byte_at : List ℕ → ℕ → ℕ
byte_at [] i = 0
byte_at (x ∷ xs) zero = x
byte_at (x ∷ xs) (suc i) = byte_at xs i

-- `mouse + delta` on a `u32`, where `delta` is a byte less 256 if the sign bit is set.
abbrev pub move : ℕ → ℕ → ℕ → ℕ
move at byte sign = (at + byte + 4294967296 - 256 * sign) % 4294967296

-- A byte's low four bits with the sign of bit 3, on a byte.
abbrev pub scroll : ℕ → ℕ
scroll b = if b / 8 % 2 == 0 then b % 16 else 240 + b % 16

-- `mouseButtons &= ~0x07; mouseButtons |= packet[0] & 0x07`
abbrev pub low_buttons : ℕ → ℕ → ℕ
low_buttons old b = old / 8 * 8 + b % 8

-- `mouseButtons &= ~0x30; mouseButtons |= packet[3] & 0x30`
abbrev pub side_buttons : ℕ → ℕ → ℕ
side_buttons old b = old / 64 * 64 + b / 16 % 4 * 16 + old % 16

-- The part of onMousePacket behind the two early returns.
unfoldable pub deliver : Mouse → MouseEvent × Mouse
deliver s =
    let b0 = byte_at s.packet 0 in
    let b3 = byte_at s.packet 3 in
    let x = move s.mouse_x (byte_at s.packet 1) (b0 / 16 % 2) in
    let y = move s.mouse_y (byte_at s.packet 2) (b0 / 32 % 2) in
    let low = low_buttons s.mouse_buttons b0 in
    let buttons = if leb 4 s.mouse_id then side_buttons low b3 else low in
    (
      record {
        prev_x = s.mouse_x;
        prev_y = s.mouse_y;
        prev_buttons = s.mouse_buttons;
        cur_x = x;
        cur_y = y;
        buttons = buttons;
        scroll_amount = if leb 3 s.mouse_id then some (scroll b3) else none;
      },
      record s { packet_ptr = 0; mouse_x = x; mouse_y = y; mouse_buttons = buttons },
    )

-- How many bytes a packet has.
abbrev pub packet_size : ℕ → ℕ
packet_size id = if leb 3 id then 4 else 3

-- The event that is passed to the handler, if there is one, and the state.
unfoldable pub on_mouse_packet : List (ℕ × ℕ) → Mouse → Option MouseEvent × Mouse
unfolding collect deliver
on_mouse_packet input s =
    let s1 = collect input s in
    if ltb s1.packet_ptr 3
    then (none, s1)
    else if leb 3 s1.mouse_id && ltb s1.packet_ptr 4
    then (none, s1)
    else (some (deliver s1).0, (deliver s1).1)
