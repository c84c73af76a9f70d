-- ===== src/SocketCan/Hands.antt =====
-- What `_send_payload` of the MIT writers of socketcan.py hands to the socket.
use open_sprite_runtime.Prelude.{ℕ, suc, ◌≤◌, ◌≡◌, refl, ◌∷◌, length, arith}
use open_sprite_runtime.Prelude.Result.{Result, ok, err}
use open_sprite_runtime.Bytes.{Bytes}
use open_sprite_runtime.SocketCan.Loopback.{canfd_pack-fits, canfd_pack-Carries}
use open_sprite_runtime.SocketCan.Writer.{SendOutcome, Wire}
use open_sprite_runtime.SocketCan.MitWriter.{handed, send_payload, counted}
use open_sprite_runtime.SocketCan.Wire.{Frame}

-- A frame of one motor with a payload of which `P` holds.
abbrev pub For : ℕ → (Bytes → Type 0) → Bytes → Type 0
For own P = Frame (λ id payload. (id ≡ own) × P payload)

pub wire-handed :
    (os : Bytes → SendOutcome) (wire : Wire) (built : Result Bytes) {frame : Bytes}
    → built ≡ ok frame
    → (handed os wire built).1 ≡ frame ∷ wire
wire-handed os wire built h = rw h

-- Eight bytes for an 11-bit identifier are handed over as one frame, whatever the socket does.
pub send_payload-For :
    (os : Bytes → SendOutcome) {P : Bytes → Type 0} (own : ℕ) (payload : Bytes) (wire : Wire)
    → own ≤ 0x7ff
    → length payload ≡ 8
    → P payload
    → (frame : Bytes) × For own P frame × ((send_payload os own payload wire).1 ≡ frame ∷ wire)
unfolding send_payload
send_payload-For os own payload wire low eight p =
    let fits = canfd_pack-fits own payload (omega arith) in
    (
      _,
      record {
        id = own;
        payload = payload;
        carries = canfd_pack-Carries own payload (omega arith) fits;
        holds = (refl, p);
      },
      wire-handed os wire _ (rw (eight) fits),
    )

pub counted-le : (r : Result (Unit {0})) (m n : ℕ) → m ≤ n → counted r m ≤ suc n
counted-le (ok a) m n h = omega arith
counted-le (err x) m n h = omega arith
