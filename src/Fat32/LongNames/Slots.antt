-- ===== src/Fat32/LongNames/Slots.antt =====
-- The entries of a long name as writeFAT32Entry leaves them in the buffer of a cluster.
use staxus.Base.{
  ℕ, zero, suc, ◌+◌, ◌-◌, ◌*◌, ◌%◌, ◌<◌, ◌≤◌, ◌≡◌, refl, ◌⊎◌, inl, inr, sym, ◌∙◌, Bool, ◌==◌, ltb,
  if◌then◌else◌, arith, Bool-cases,
}
use native.Mathlib.Decide.{ℕ_discrete}
use native.Mathlib.Nat.{mod-add-mod, mod-eq_of_lt}
use staxus.Memory.Bytes.{Bytes, load8, load8-store8_self, load8-store8_ne}
use staxus.Memory.Utils.{memset}
use staxus.Memory.Utils.Fill.{memset_at}
use staxus.Files.{Text}
use staxus.Fat32.Write.{unit_at, put_units, put_slot_head, put_slot, slot_at, put_slots}

-- The address `a` does not lie in the `n` bytes from `p` on.
abbrev pub Apart : ℕ → ℕ → ℕ → Type 0
Apart a p n = (a < p) ⊎ (p + n ≤ a)

-- Where the low byte of character `j` of an entry lies.
abbrev pub unit_off : ℕ → ℕ
unit_off j = if ltb j 5 then 1 + 2 * j else if ltb j 11 then 4 + 2 * j else 6 + 2 * j

-- At `raw` stands entry `k` of the long name, the last one if `last`.
pub record Slot (last : Bool) (k : ℕ) (name : Text) (raw : ℕ) (b : Bytes) : Type 0 where
  pub number : load8 b raw ≡ (if last then k + 1 + 64 else k + 1)
  pub kind : load8 b (raw + 11) ≡ 0x0F
  pub unit : (j : ℕ) → j < 13 → load8 b (raw + unit_off j) ≡ unit_at name (13 * k + j) % 256

put_units-Apart :
    (n pos p a : ℕ) (name : Text) (b : Bytes)
    → Apart a p (2 * n)
    → load8 (put_units n name pos p b) a ≡ load8 b a
unfolding put_units
put_units-Apart zero pos p a name b apart = refl
put_units-Apart (suc n) pos p a name b apart =
    put_units-Apart n (pos + 1) (p + 2) a name _ (omega arith)
    ∙ load8-store8_ne _ (p + 1) _ a (omega arith)
    ∙ load8-store8_ne b p _ a (omega arith)

twice : (v : ℕ) → v % 256 % 256 ≡ v % 256
twice v = omega arith

put_units-unit :
    (n pos p j : ℕ) (name : Text) (b : Bytes)
    → j < n
    → load8 (put_units n name pos p b) (p + 2 * j) ≡ unit_at name (pos + j) % 256
unfolding put_units
put_units-unit zero pos p j name b small = absurd (omega arith)
put_units-unit (suc n) pos p zero name b small =
    let here : p + 2 * 0 ≡ p = omega arith in
    let same : pos + 0 ≡ pos = omega arith in
    rw (here, same)
      (put_units-Apart n (pos + 1) (p + 2) p name _ (inl (omega arith))
        ∙ load8-store8_ne _ (p + 1) _ p (omega arith)
        ∙ load8-store8_self b p _
        ∙ twice (unit_at name pos))
put_units-unit (suc n) pos p (suc j) name b small =
    let here : p + 2 * suc j ≡ p + 2 + 2 * j = omega arith in
    let same : pos + suc j ≡ pos + 1 + j = omega arith in
    rw (here, same) (put_units-unit n (pos + 1) (p + 2) j name _ (omega arith))

memset-Apart : (p v n a : ℕ) (b : Bytes) → Apart a p n → load8 (memset p v n b) a ≡ load8 b a
memset-Apart p v n a b apart = ground (arith, memset_at p v n b a)

put_slot_head-Apart :
    (last : Bool) (k sum raw a : ℕ) (b : Bytes)
    → Apart a raw 32
    → load8 (put_slot_head last k sum raw b) a ≡ load8 b a
unfolding put_slot_head
put_slot_head-Apart last k sum raw a b apart =
    load8-store8_ne _ (raw + 27) _ a (omega arith)
    ∙ load8-store8_ne _ (raw + 26) _ a (omega arith)
    ∙ load8-store8_ne _ (raw + 13) _ a (omega arith)
    ∙ load8-store8_ne _ (raw + 12) _ a (omega arith)
    ∙ load8-store8_ne _ (raw + 11) _ a (omega arith)
    ∙ load8-store8_ne _ raw _ a (omega arith)
    ∙ memset-Apart raw 0 32 a b apart

pub put_slot-Apart :
    (last : Bool) (k sum raw a : ℕ) (name : Text) (b : Bytes)
    → Apart a raw 32
    → load8 (put_slot last k sum name raw b) a ≡ load8 b a
unfolding put_slot
put_slot-Apart last k sum raw a name b apart =
    put_units-Apart 2 (13 * k + 11) (raw + 28) a name _ (omega arith)
    ∙ put_units-Apart 6 (13 * k + 5) (raw + 14) a name _ (omega arith)
    ∙ put_units-Apart 5 (13 * k) (raw + 1) a name _ (omega arith)
    ∙ put_slot_head-Apart last k sum raw a b apart

put_slot_head-number :
    (last : Bool) (k sum raw : ℕ) (b : Bytes)
    → k < 20
    → load8 (put_slot_head last k sum raw b) raw ≡ (if last then k + 1 + 64 else k + 1)
unfolding put_slot_head
put_slot_head-number last k sum raw b small =
    load8-store8_ne _ (raw + 27) _ raw (omega arith)
    ∙ load8-store8_ne _ (raw + 26) _ raw (omega arith)
    ∙ load8-store8_ne _ (raw + 13) _ raw (omega arith)
    ∙ load8-store8_ne _ (raw + 12) _ raw (omega arith)
    ∙ load8-store8_ne _ (raw + 11) _ raw (omega arith)
    ∙ load8-store8_self _ raw _
    ∙ ground arith

put_slot_head-kind :
    (last : Bool) (k sum raw : ℕ) (b : Bytes)
    → load8 (put_slot_head last k sum raw b) (raw + 11) ≡ 0x0F
unfolding put_slot_head
put_slot_head-kind last k sum raw b =
    load8-store8_ne _ (raw + 27) _ (raw + 11) (omega arith)
    ∙ load8-store8_ne _ (raw + 26) _ (raw + 11) (omega arith)
    ∙ load8-store8_ne _ (raw + 13) _ (raw + 11) (omega arith)
    ∙ load8-store8_ne _ (raw + 12) _ (raw + 11) (omega arith)
    ∙ load8-store8_self _ (raw + 11) _

-- The three loops leave the head as it is.
put_slot-head :
    (last : Bool) (k sum raw a : ℕ) (name : Text) (b : Bytes)
    → (a ≡ raw) ⊎ (a ≡ raw + 11)
    → load8 (put_slot last k sum name raw b) a ≡ load8 (put_slot_head last k sum raw b) a
unfolding put_slot
put_slot-head last k sum raw a name b here =
    put_units-Apart 2 (13 * k + 11) (raw + 28) a name _ (omega arith)
    ∙ put_units-Apart 6 (13 * k + 5) (raw + 14) a name _ (omega arith)
    ∙ put_units-Apart 5 (13 * k) (raw + 1) a name _ (omega arith)

put_slot-unit :
    (last : Bool) (k sum raw j : ℕ) (name : Text) (b : Bytes)
    → j < 13
    → load8 (put_slot last k sum name raw b) (raw + unit_off j) ≡ unit_at name (13 * k + j) % 256
unfolding put_slot
put_slot-unit last k sum raw j name b small =
    let b1 = put_units 5 name (13 * k) (raw + 1) (put_slot_head last k sum raw b) in
    let b2 = put_units 6 name (13 * k + 5) (raw + 14) b1 in
    elim (Bool-cases (ltb j 5)) [
      | inl first ↦
          let here : raw + (1 + 2 * j) ≡ raw + 1 + 2 * j = omega arith in
          rw (first, here)
            (put_units-Apart 2 (13 * k + 11) (raw + 28) _ name b2 (ground arith)
              ∙ put_units-Apart 6 (13 * k + 5) (raw + 14) _ name b1 (ground arith)
              ∙ put_units-unit 5 (13 * k) (raw + 1) j name _ (ground arith))
      | inr later ↦ elim (Bool-cases (ltb j 11)) [
        | inl second ↦
            let here : raw + (4 + 2 * j) ≡ raw + 14 + 2 * (j - 5) = ground arith in
            let same : 13 * k + j ≡ 13 * k + 5 + (j - 5) = ground arith in
            rw (later, second, here, same)
              (put_units-Apart 2 (13 * k + 11) (raw + 28) _ name b2 (ground arith)
                ∙ put_units-unit 6 (13 * k + 5) (raw + 14) (j - 5) name b1 (ground arith))
        | inr third ↦
            let here : raw + (6 + 2 * j) ≡ raw + 28 + 2 * (j - 11) = ground arith in
            let same : 13 * k + j ≡ 13 * k + 11 + (j - 11) = ground arith in
            rw (later, third, here, same)
              (put_units-unit 2 (13 * k + 11) (raw + 28) (j - 11) name b2 (ground arith))
      ]
    ]

put_slot-Slot :
    (last : Bool) (k sum raw : ℕ) (name : Text) (b : Bytes)
    → k < 20
    → Slot last k name raw (put_slot last k sum name raw b)
put_slot-Slot last k sum raw name b small = record {
  number =
      put_slot-head last k sum raw raw name b (inl refl)
      ∙ put_slot_head-number last k sum raw b small;
  kind =
      put_slot-head last k sum raw (raw + 11) name b (inr refl)
      ∙ put_slot_head-kind last k sum raw b;
  unit = λ j inside. put_slot-unit last k sum raw j name b inside;
}

unit_off-lt : (j : ℕ) → j < 13 → unit_off j < 32
unit_off-lt j small = ground arith

-- An entry stays where its bytes stay.
pub Slot-frame :
    (last : Bool) (k : ℕ) (name : Text) (raw : ℕ) (b b' : Bytes)
    → ((a : ℕ) → raw ≤ a → a < raw + 32 → load8 b' a ≡ load8 b a)
    → Slot last k name raw b
    → Slot last k name raw b'
Slot-frame last k name raw b b' same s = record {
  number = same raw (omega arith) (omega arith) ∙ s.number;
  kind = same (raw + 11) (omega arith) (omega arith) ∙ s.kind;
  unit = λ j small.
      same (raw + unit_off j) (omega arith) (omega (arith, unit_off-lt j small)) ∙ s.unit j small;
}

slot_at-run :
    (buf epc start n k : ℕ)
    → k < n
    → start % epc + n ≤ epc
    → slot_at buf epc (start + k) ≡ slot_at buf epc start + k * 32
slot_at-run buf epc start n k small fits =
    let here : (start + k) % epc ≡ start % epc + k =
      sym (mod-add-mod start epc k) ∙ mod-eq_of_lt (omega arith) in
    omega (arith, here)

put_slots-Apart :
    (r n sum : ℕ) (name : Text) (buf epc start : ℕ) (b : Bytes) (a : ℕ)
    → r ≤ n
    → start % epc + n ≤ epc
    → Apart a (slot_at buf epc start) (r * 32)
    → load8 (put_slots r n sum name buf epc start b) a ≡ load8 b a
unfolding put_slots
put_slots-Apart zero n sum name buf epc start b a small fits apart = refl
put_slots-Apart (suc k) n sum name buf epc start b a small fits apart =
    put_slots-Apart k n sum name buf epc start _ a (omega arith) fits (omega arith)
    ∙ put_slot-Apart (k + 1 == n) k sum (slot_at buf epc (start + k)) a name b
        (omega (arith, slot_at-run buf epc start n k (omega arith) fits))

-- The entries of a long name lie one behind the other, in their order.
pub put_slots-Slot :
    (r n sum : ℕ) (name : Text) (buf epc start : ℕ) (b : Bytes) (k : ℕ)
    → k < r
    → r ≤ n
    → n ≤ 20
    → start % epc + n ≤ epc
    → Slot
        (k + 1 == n)
        k
        name
        (slot_at buf epc start + k * 32)
        (put_slots r n sum name buf epc start b)
unfolding put_slots
put_slots-Slot zero n sum name buf epc start b k small most few fits = absurd (omega arith)
put_slots-Slot (suc r) n sum name buf epc start b k small most few fits =
    let here = slot_at-run buf epc start n r (omega arith) fits in
    let b1 = put_slot (r + 1 == n) r sum name (slot_at buf epc (start + r)) b in
    elim (ℕ_discrete k r) [
      | yes same ↦
          rw (same, sym here)
            (Slot-frame (r + 1 == n) r name (slot_at buf epc (start + r)) b1 _
              (λ a lo hi.
                put_slots-Apart r n sum name buf epc start b1 a (omega arith) fits
                  (omega (arith, here)))
              (put_slot-Slot (r + 1 == n) r sum (slot_at buf epc (start + r)) name b (omega arith)))
      | no other ↦
          put_slots-Slot r n sum name buf epc start b1 k (omega arith) (omega arith) few fits
    ]
