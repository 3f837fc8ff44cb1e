-- ===== src/Mouse/Packets.antt =====
-- Whole packets of the mouse become events.
use staxus.Base.{
  ℕ, ◌+◌, ◌*◌, ◌/◌, ◌%◌, ◌<◌, ◌≤◌, ◌≡◌, ◌⊎◌, length, leb, Option, none, some, ◌&&◌, List, [], ◌∷◌,
  ltb, if◌then◌else◌,
}
use staxus.Mouse.{Mouse, MouseEvent, scroll, byte_at, from_mouse, deliver, packet_size}

-- The bytes of the mouse, in their order.
abbrev pub mouse_bytes : List (ℕ × ℕ) → List ℕ
mouse_bytes [] = []
mouse_bytes (b ∷ bs) = if from_mouse b.0 then b.1 ∷ mouse_bytes bs else mouse_bytes bs

-- The bytes `bs` stand from `p` on, and elsewhere stands what stood there before.
pub record Kept (p : ℕ) (bs before after : List ℕ) : Type 0 where
  pub new : (j : ℕ) → j < length bs → byte_at after (p + j) ≡ byte_at bs j
  pub old : (k : ℕ) → (k < p) ⊎ (p + length bs ≤ k) → byte_at after k ≡ byte_at before k

-- The event of a whole packet: where the mouse was and where it is now, which is also what is kept. The
-- movement is a byte with its sign in the packet's first byte; a negative one has 256 taken off.
pub record Delivered (s : Mouse) (e : MouseEvent) (s' : Mouse) : Type 0 where
  pub prev_x : e.prev_x ≡ s.mouse_x
  pub prev_y : e.prev_y ≡ s.mouse_y
  pub prev_buttons : e.prev_buttons ≡ s.mouse_buttons
  pub cur_x : e.cur_x ≡ s'.mouse_x
  pub cur_y : e.cur_y ≡ s'.mouse_y
  pub buttons : e.buttons ≡ s'.mouse_buttons
  pub moved_x :
      (e.cur_x + 256 * (byte_at s'.packet 0 / 16 % 2)) % 4294967296
      ≡ (s.mouse_x + byte_at s'.packet 1) % 4294967296
  pub moved_y :
      (e.cur_y + 256 * (byte_at s'.packet 0 / 32 % 2)) % 4294967296
      ≡ (s.mouse_y + byte_at s'.packet 2) % 4294967296
  pub pressed : e.buttons % 8 ≡ byte_at s'.packet 0 % 8
  pub scrolled :
      e.scroll_amount ≡ (if leb 3 s.mouse_id then some (scroll (byte_at s'.packet 3)) else none)
  pub emptied : s'.packet_ptr ≡ 0
  pub mouse_id : s'.mouse_id ≡ s.mouse_id

-- What onMousePacket leaves when it has read `bytes`: no event, and the state with these bytes; or the
-- event of a whole packet.
abbrev pub Packet : Mouse → List ℕ → Option MouseEvent × Mouse → Type 0
Packet s bytes r =
    ((s.packet_ptr + length bytes < packet_size s.mouse_id)
      × (r.0 ≡ none)
      × (r.1 ≡ record s { packet = r.1.packet; packet_ptr = s.packet_ptr + length bytes }))
    ⊎ ((packet_size s.mouse_id ≤ s.packet_ptr + length bytes)
        × ((e : MouseEvent) × (r.0 ≡ some e) × Delivered s e r.1))

-- What onMousePacket does once the bytes have been read.
abbrev finished : Mouse → Option MouseEvent × Mouse
finished s =
    if ltb s.packet_ptr 3
    then (none, s)
    else if leb 3 s.mouse_id && ltb s.packet_ptr 4
    then (none, s)
    else (some (deliver s).0, (deliver s).1)
