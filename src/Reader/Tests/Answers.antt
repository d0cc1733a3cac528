-- ===== src/Reader/Tests/Answers.antt =====
-- What a user device answers to AUTH0 and AUTH1, with a decoder that reads just these answers.
use aliro_actuator.Common.{
  List, [], ◌∷◌, ◌++◌, none, some, Bool, ltb, ◌==◌, if◌then◌else◌, replicate, length, Bytes,
}
use aliro_actuator.Tlv.{Tlv, nil, element, bytes}
use aliro_actuator.Apdu.Chain.Receive.{Incoming}
use aliro_actuator.Device.{Environment}
use aliro_actuator.Device.Tests.{an_environment}

abbrev epubk : Bytes
epubk = 4 ∷ replicate 64 1

abbrev signature : Bytes
signature = replicate 64 2

abbrev bitmap : Bytes
bitmap = 0 ∷ 5 ∷ []

-- the answers to AUTH0 of a standard and of a fast transaction
abbrev standard_bytes : Bytes
standard_bytes = 0x86 ∷ 65 ∷ epubk

abbrev cryptogram : Bytes
cryptogram = replicate 64 3

abbrev fast_bytes : Bytes
fast_bytes = standard_bytes ++ 0x9d ∷ 64 ∷ cryptogram

-- the answer to AUTH1 in the clear
abbrev signed_bytes : Bytes
signed_bytes = 0x5a ∷ 65 ∷ (epubk ++ 0x9e ∷ 64 ∷ (signature ++ 0x5e ∷ 2 ∷ bitmap))

abbrev auth0_tlv : Bool → Tlv
auth0_tlv fast =
    element 0x86 (bytes epubk) (if fast then element 0x9d (bytes cryptogram) nil else nil)

abbrev auth1_tlv : Tlv
auth1_tlv =
    element 0x5a (bytes epubk) (element 0x9e (bytes signature) (element 0x5e (bytes bitmap) nil))

abbrev cryptogram_tlv : Tlv
cryptogram_tlv =
    element 0x5e (bytes bitmap)
      (element 0x91 (bytes (replicate 20 0)) (element 0x92 (bytes (replicate 20 0)) nil))

-- by the first byte, and by the length for the answers to AUTH0
abbrev decoded : Bytes → Tlv
decoded [] = nil
decoded (x ∷ b) =
    if x == 0x86
    then auth0_tlv (ltb 100 (length b))
    else if x == 0x5a
    then auth1_tlv
    else cryptogram_tlv

abbrev pub answered : Environment
answered = record an_environment {
  ber = record { parse = λ b r. some (decoded b); build = λ d. some [] };
}

abbrev answer : Bytes → Incoming
answer b = record { payload = b ++ 0x90 ∷ 0x00 ∷ []; header = none; id = none }

-- under the cipher in the clear, whose tag is 16 zeros
abbrev pub standard_answers : List Incoming
standard_answers = answer standard_bytes ∷ answer (signed_bytes ++ replicate 16 0) ∷ []

abbrev pub fast_answers : List Incoming
fast_answers = answer fast_bytes ∷ []
