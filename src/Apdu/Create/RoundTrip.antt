-- ===== src/Apdu/Create/RoundTrip.antt =====
-- A LOAD CERT command of access_protocol/apdu.py, from the reader's `create_load_cert_command` to the
-- user device's `parse_command`.
use aliro_actuator.Common.{
  ℕ, ◌≡◌, ◌<◌, refl, List, ◌∷◌, Option, none, some, Bool, false, length, Bytes, ok, arith,
}
use aliro_actuator.Tlv.{BerTlv}
use aliro_actuator.Encryption.{AesGcm, EncryptionEngine}
use aliro_actuator.Apdu.Command.{Command, check_cla, check_ins, check_parameters, check_le}
use aliro_actuator.Apdu.Chain.{Apdu}
use aliro_actuator.Apdu.Chain.Receive.{receive_command, differs}
use aliro_actuator.Apdu.Chain.Receive.Commands.{receive_command-create_command, frames}
use aliro_actuator.Apdu.Create.{create_load_cert_command}
use aliro_actuator.Apdu.Parse.{Cbor, load_cert, parse_command, parse_as_load_cert}

parse_load_cert :
    (aes : AesGcm) (ber : BerTlv) (cbor : Cbor) (engine : Option EncryptionEngine) (d : Command)
    (certificate : Bytes)
    → d.cla ≡ 0x80
    → d.ins ≡ 0xd1
    → d.p1 ≡ 0
    → d.p2 ≡ 0
    → d.payload ≡ some certificate
    → parse_command aes ber cbor engine d ≡ (engine, ok (load_cert certificate))
unfolding parse_command parse_as_load_cert check_cla check_ins check_parameters check_le
parse_load_cert aes ber cbor engine d certificate c i p q b = simp (c, i, p, q, b) refl

-- A certificate of at least one and at most 65535 bytes, sent with LOAD CERT in as many commands as it
-- takes, arrives and is parsed to itself, whatever engine there is, which stays as it was.
pub parse_command-create_load_cert_command :
    (aes : AesGcm) (ber : BerTlv) (cbor : Cbor) (engine : Option EncryptionEngine) (a : Apdu)
    (timer : Bool) (header id : Option ℕ) (first : ℕ) (rest : Bytes) {c : Command}
    {cs : List Command}
    → differs header 0 ≡ false
    → differs id 0 ≡ false
    → length (first ∷ rest) < 65536
    → create_load_cert_command a (first ∷ rest) ≡ ok (c ∷ cs)
    → (d : Command) × (chained : Bool) × (receive_command timer c.as_bytes (frames header id cs)
        ≡ ok (d, chained))
      × (parse_command aes ber cbor engine d ≡ (engine, ok (load_cert (first ∷ rest))))
unfolding create_load_cert_command
parse_command-create_load_cert_command aes ber cbor engine a timer header id first rest dh di short
      created =
    let (d, chained, received, cla, ins, p1, p2, payload) =
      receive_command-create_command a timer header id 0x80 0xd1 0x00 0x00 (first ∷ rest)
        (some 0x00) none dh di (omega arith) (omega arith) (omega arith) (omega arith) refl short
        (omega arith) created in
    (
      d,
      chained,
      received,
      parse_load_cert aes ber cbor engine d (first ∷ rest) cla ins p1 p2 payload,
    )
