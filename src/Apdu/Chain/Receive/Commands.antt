-- ===== src/Apdu/Chain/Receive/Commands.antt =====
-- Chains of commands from `create_command` to `handle_chaining_receive_command` of
-- access_protocol/apdu.py.
use aliro_actuator.Common.{
  ℕ, ◌+◌, ◌≡◌, ◌<◌, refl, sym, ◌∙◌, ap, List, [], ◌∷◌, ◌++◌, true, false, Bool, Option, some,
  bit_or, length, All, All-map, Bytes, ok, >>=-eq-ok, arith, append_assoc, append-nil,
}
use aliro_actuator.Apdu.Command.{Command, chaining_bit, optional_data}
use aliro_actuator.Apdu.Command as Cmd
use aliro_actuator.Apdu.Command.RoundTrip.{
  IsWord, read_le, read_le-IsWord, create_from_parameters-eq-ok, create_from_parameters_ok,
  create_from_bytestring-create_from_parameters,
}
use aliro_actuator.Apdu.Response.{given}
use aliro_actuator.Apdu.Chain.{Apdu, create_commands, create_command}
use aliro_actuator.Apdu.Chain.Split.{concat, IsNonempty}
use aliro_actuator.Apdu.Chain.Commands.{chaining_class, given-optional_data, create_command_parts}
use aliro_actuator.Apdu.Chain.Receive.{
  Incoming, differs, is_busy, check_ble_message_type_for_command, receive_rest, receive_command,
}

-- the transport's messages for some commands, with a header and an id that command messages have
abbrev pub frames : Option ℕ → Option ℕ → List Command → List Incoming
frames header id [] = []
frames header id (c ∷ cs) =
    record { payload = c.as_bytes; header = header; id = id } ∷ frames header id cs

-- what the last command of a chain tells of the whole command
pub record IsLast (cla ins p1 p2 : ℕ) (c : Command) : Type 0 where
  pub same_cla : c.cla ≡ cla
  pub same_ins : c.ins ≡ ins
  pub same_p1 : c.p1 ≡ p1
  pub same_p2 : c.p2 ≡ p2
  pub le_value : ℕ
  pub same_le : c.le ≡ some le_value
  pub word_le : le_value < 65536

module _ (timer : Bool) (header id : Option ℕ) (command_header : differs header 0 ≡ false)
    (command_id : differs id 0 ≡ false) where
  not_busy : (bs : Bytes) → is_busy (record { payload = bs; header = header; id = id }) ≡ ok false
  unfolding is_busy
  not_busy bs = ground arith

  right_type :
      (bs : Bytes)
      → check_ble_message_type_for_command (record { payload = bs; header = header; id = id })
        ≡ ok tt
  unfolding check_ble_message_type_for_command
  right_type bs = rw (command_header, command_id)

  module _ (total : Bytes) (sent : ℕ) (bs : Bytes) (ms : List Incoming) {c : Command} where
    receive_more :
        Cmd.create_from_bytestring bs ≡ ok c
        → c.chaining_control_bit ≡ true
        → receive_rest timer total sent (record { payload = bs; header = header; id = id } ∷ ms)
          ≡ receive_rest timer (total ++ given c.payload) (sent + 1) ms
    unfolding receive_rest
    receive_more e bit = rw (not_busy bs, right_type bs, e) (simp bit)

    receive_last :
        Cmd.create_from_bytestring bs ≡ ok c
        → c.chaining_control_bit ≡ false
        → receive_rest timer total sent (record { payload = bs; header = header; id = id } ∷ ms)
          ≡ ok (c, total ++ given c.payload, sent, ms)
    unfolding receive_rest
    receive_last e bit = rw (not_busy bs, right_type bs, e) (simp bit)

  module _ (cla ins p1 p2 : ℕ) (le : Option ℕ) (byte_class : cla < 256) (word : IsWord le) where
    read_part :
        (a : ℕ) (part : Bytes) {c : Command}
        → length part < 65536
        → Cmd.create_from_parameters a ins p1 p2 part le ≡ ok c
        → (d : Command) × (Cmd.create_from_bytestring c.as_bytes ≡ ok d)
          × (d.chaining_control_bit ≡ chaining_bit a)
          × (given d.payload ≡ part)
          × IsLast a ins p1 p2 d
    read_part a part {c} short e =
        let (fields, le_bytes, _, _, same) = create_from_parameters-eq-ok a ins p1 p2 part le e in
        let back = create_from_bytestring-create_from_parameters a ins p1 p2 part le short word e in
        (
          record c { lc = some (length part); le = some (read_le part le) },
          back,
          ap (λ (c : Command). c.chaining_control_bit) same,
          ap (λ (c : Command). given c.payload) same ∙ given-optional_data part,
          record {
            same_cla = ap (λ (c : Command). c.cla) same;
            same_ins = ap (λ (c : Command). c.ins) same;
            same_p1 = ap (λ (c : Command). c.p1) same;
            same_p2 = ap (λ (c : Command). c.p2) same;
            le_value = read_le part le;
            same_le = refl;
            word_le = read_le-IsWord part le word;
          },
        )

    receive_rest_lem :
        (parts : List Bytes) (total : Bytes) (sent : ℕ) {cs : List Command}
        → IsNonempty parts
        → All (λ p. length p < 65536) parts
        → chaining_bit cla ≡ false
        → create_commands cla ins p1 p2 le parts ≡ ok cs
        → (d : Command) × (n : ℕ) × IsLast cla ins p1 p2 d
          × (receive_rest timer total sent (frames header id cs)
              ≡ ok (d, total ++ concat parts, n, []))
    unfolding create_commands
    receive_rest_lem [] total sent some_part short single h = elim some_part [ ]
    receive_rest_lem (part ∷ []) total sent {cs} some_part (short, _) single h =
        let (c, e, k) = >>=-eq-ok (Cmd.create_from_parameters cla ins p1 p2 part le) _ h in
        let all : cs ≡ c ∷ [] = cc k in
        let (d, r, bit, load, same) = read_part cla part short e in
        (
          d,
          sent,
          same,
          rw all (
              receive_last total sent c.as_bytes [] r (bit ∙ single)
              ∙ ap (λ bs. ok (d, total ++ bs, sent, [])) (load ∙ sym (append-nil part))),
        )
    receive_rest_lem (part ∷ next ∷ parts) total sent {cs} some_part (short, shorts) single h =
        let (c, e, k) =
          >>=-eq-ok (Cmd.create_from_parameters (bit_or cla 0x10) ins p1 p2 part le) _ h in
        let (rest, f, k') = >>=-eq-ok (create_commands cla ins p1 p2 le (next ∷ parts)) _ k in
        let all : cs ≡ c ∷ rest = cc k' in
        let (d, r, bit, load, _) = read_part (bit_or cla 0x10) part short e in
        let (last, n, same, done) =
          receive_rest_lem (next ∷ parts) (total ++ part) (sent + 1) tt shorts single f in
        (
          last,
          n,
          same,
          rw all (
              receive_more total sent c.as_bytes (frames header id rest) r
                (bit ∙ (chaining_class cla byte_class).0)
              ∙ ap (λ bs. receive_rest timer (total ++ bs) (sent + 1) (frames header id rest)) load
              ∙ done
              ∙ ap (λ bs. ok (last, bs, n, [])) (append_assoc total part (concat (next ∷ parts)))),
        )

module _ (timer : Bool) (header id : Option ℕ) (command_header : differs header 0 ≡ false)
    (command_id : differs id 0 ≡ false) (cla ins p1 p2 : ℕ) (le : Option ℕ) (word : IsWord le)
    (hc : cla < 256) (hi : ins < 256) (h1 : p1 < 256) (h2 : p2 < 256)
    (single : chaining_bit cla ≡ false) where
  abbrev Arrives : Bytes → Command → List Command → Type 0
  Arrives payload c cs =
      (d : Command) × (chained : Bool) × (receive_command timer c.as_bytes (frames header id cs)
        ≡ ok (d, chained))
      × (d.cla ≡ cla)
      × (d.ins ≡ ins)
      × (d.p1 ≡ p1)
      × (d.p2 ≡ p2)
      × (d.payload ≡ optional_data payload)

  receive_one :
      (payload : Bytes) {c : Command} (ms : List Incoming)
      → length payload < 65536
      → Cmd.create_from_parameters cla ins p1 p2 payload le ≡ ok c
      → receive_command timer c.as_bytes ms
        ≡ ok (record c { lc = some (length payload); le = some (read_le payload le) }, false)
  unfolding receive_command
  receive_one payload {c} ms short e =
      let (fields, le_bytes, _, _, same) =
        create_from_parameters-eq-ok cla ins p1 p2 payload le e in
      let bit : c.chaining_control_bit ≡ false =
        ap (λ (c : Command). c.chaining_control_bit) same ∙ single in
      rw (create_from_bytestring-create_from_parameters cla ins p1 p2 payload le short word e)
        (simp bit)

  receive_chained :
      (bs total : Bytes) (ms left : List Incoming) (n : ℕ) {d last g : Command}
      → Cmd.create_from_bytestring bs ≡ ok d
      → d.chaining_control_bit ≡ true
      → receive_rest timer (given d.payload) 1 ms ≡ ok (last, total, n, left)
      → Cmd.create_from_parameters last.cla last.ins last.p1 last.p2 total last.le ≡ ok g
      → receive_command timer bs ms ≡ ok (g, true)
  unfolding receive_command
  receive_chained bs total ms left n r bit rest made = rw r (simp (bit, rest, made))

  receive_chain :
      (part next : Bytes) (parts : List Bytes) {c : Command} {cs : List Command}
      → All (λ p. length p < 65536) (part ∷ next ∷ parts)
      → length (concat (part ∷ next ∷ parts)) < 65536
      → create_commands cla ins p1 p2 le (part ∷ next ∷ parts) ≡ ok (c ∷ cs)
      → Arrives (concat (part ∷ next ∷ parts)) c cs
  unfolding create_commands
  receive_chain part next parts {c} {cs} (short, shorts) whole h =
      let (first, e, k) =
        >>=-eq-ok (Cmd.create_from_parameters (bit_or cla 0x10) ins p1 p2 part le) _ h in
      let (rest, f, k') = >>=-eq-ok (create_commands cla ins p1 p2 le (next ∷ parts)) _ k in
      let same_first : c ≡ first = cc k' in
      let same_rest : cs ≡ rest = cc k' in
      let (d, r, bit, load, _) =
        read_part timer header id command_header command_id cla ins p1 p2 le hc word
          (bit_or cla 0x10) part short e in
      let (last, n, same, done) =
        receive_rest_lem timer header id command_header command_id cla ins p1 p2 le hc word
          (next ∷ parts) part 1 tt shorts single f in
      let (g, made, _, _) =
        create_from_parameters_ok cla ins p1 p2 (concat (part ∷ next ∷ parts)) (some same.le_value)
          hc hi h1 h2 whole same.word_le in
      let (fields, le_bytes, _, _, built) =
        create_from_parameters-eq-ok cla ins p1 p2 (concat (part ∷ next ∷ parts))
          (some same.le_value) made in
      (
        g,
        true,
        rw (same_first, same_rest)
            (receive_chained first.as_bytes (concat (part ∷ next ∷ parts)) (frames header id rest)
              [] n r (bit ∙ (chaining_class cla hc).0)
              (ap (λ bs. receive_rest timer bs 1 (frames header id rest)) load ∙ done)
              (cc (made, same.same_cla, same.same_ins, same.same_p1, same.same_p2, same.same_le))),
        ap (λ (c : Command). c.cla) built,
        ap (λ (c : Command). c.ins) built,
        ap (λ (c : Command). c.p1) built,
        ap (λ (c : Command). c.p2) built,
        ap (λ (c : Command). c.payload) built,
      )

  receive_parts :
      (parts : List Bytes) {c : Command} {cs : List Command}
      → IsNonempty parts
      → All (λ p. length p < 65536) parts
      → length (concat parts) < 65536
      → create_commands cla ins p1 p2 le parts ≡ ok (c ∷ cs)
      → Arrives (concat parts) c cs
  unfolding create_commands
  receive_parts [] some_part shorts whole h = elim some_part [ ]
  receive_parts (part ∷ []) {c} {cs} some_part (short, _) whole h =
      let (d, e, k) = >>=-eq-ok (Cmd.create_from_parameters cla ins p1 p2 part le) _ h in
      let same : c ≡ d = cc k in
      let (fields, le_bytes, _, _, built) = create_from_parameters-eq-ok cla ins p1 p2 part le e in
      (
        record d { lc = some (length part); le = some (read_le part le) },
        false,
        rw same (receive_one part (frames header id cs) short e),
        ap (λ (c : Command). c.cla) built,
        ap (λ (c : Command). c.ins) built,
        ap (λ (c : Command). c.p1) built,
        ap (λ (c : Command). c.p2) built,
        ap (λ (c : Command). c.payload) built ∙ ap optional_data (sym (append-nil part)),
      )
  receive_parts (part ∷ next ∷ parts) some_part shorts whole h =
      receive_chain part next parts shorts whole h

-- A command that was cut into a chain arrives whole: from the bytes of its first command and from the
-- messages for the others, with a header and an id of command messages or none, the receiving side
-- builds a command with the header and the data that were given to `create_command`. The class byte
-- has no chaining bit, the header is of bytes, and at most 65535 bytes of data and an le field below
-- 65536 were given.
pub receive_command-create_command :
    (a : Apdu) (timer : Bool) (header id : Option ℕ) (cla ins p1 p2 : ℕ) (payload : Bytes)
    (le max_data_len : Option ℕ) {c : Command} {cs : List Command}
    → differs header 0 ≡ false
    → differs id 0 ≡ false
    → cla < 256
    → ins < 256
    → p1 < 256
    → p2 < 256
    → chaining_bit cla ≡ false
    → length payload < 65536
    → IsWord le
    → create_command a cla ins p1 p2 payload le max_data_len ≡ ok (c ∷ cs)
    → (d : Command) × (chained : Bool) × (receive_command timer c.as_bytes (frames header id cs)
        ≡ ok (d, chained))
      × (d.cla ≡ cla)
      × (d.ins ≡ ins)
      × (d.p1 ≡ p1)
      × (d.p2 ≡ p2)
      × (d.payload ≡ optional_data payload)
receive_command-create_command a timer header id cla ins p1 p2 payload le max_data_len {c} {cs} dh
      di hc hi h1 h2 single short word e =
    let (parts, whole, shorts, some_part, created) =
      create_command_parts a cla ins p1 p2 payload le max_data_len e in
    let counted : length (concat parts) < 65536 = rw whole short in
    let arrived =
      receive_parts timer header id dh di cla ins p1 p2 le word hc hi h1 h2 single parts some_part
        (All-map (λ p h. omega (arith, h, short)) parts shorts) counted created in
    rw whole at arrived
