-- ===== src/Wire/Handshake/Agreement.antt =====
-- What both ends of the handshake answer, and that they agree.
use emvp_thesis.Base.{
  ℕ, ◌^◌, ◌≤◌, ◌<◌, ◌≡◌, inl, inr, sym, ap, ◌∙◌, arith, List, [], ◌++◌, length, Bool, true, false,
  ◌&&◌, ◌==◌, if◌then◌else◌, take, drop, take-append, drop-append, append-nil, length-append,
  Bool-cases,
}
use emvp_thesis.Base.Action.{Result, ok, err}
use emvp_thesis.Base.Words.{to_le_bytes, length-to_le_bytes, from-to_le_bytes}
use emvp_thesis.Wire.Error.{
  HandshakeError, codec, rejected, unsupported_version, unsupported_modulus,
  invalid_handshake_status,
}
use emvp_thesis.Wire.Stream.{
  Ending, Sink, extend, Writes, Writes-bind, Writes-write_all, read_exact, write_all,
}
use emvp_thesis.Wire.Frame.{magic, protocol_version, protocol_modulus, write_u16}
use emvp_thesis.Wire.Frame.Reads.{read_exact-append, Writes-write_word}
use emvp_thesis.Wire.Handshake.{
  hello_bytes, write_client_hello, same_bytes, read_client_hello, write_server_hello,
  handshake_status, read_server_hello, client_handshake, answer_hello, server_handshake,
}

-- The bytes of a hello.
abbrev pub hello : ℕ → ℕ → List ℕ
hello version modulus = magic ++ (to_le_bytes 2 version ++ to_le_bytes 4 modulus)

Writes-client_hello :
    (version modulus : ℕ) → Writes (write_client_hello version modulus) (hello version modulus) tt
unfolding write_client_hello
Writes-client_hello version modulus =
    Writes-bind (write_all magic) _ magic _ tt tt (Writes-write_all magic) (
      Writes-bind (write_u16 version) _ (to_le_bytes 2 version) _ tt tt
        (Writes-write_word 2 version) (Writes-write_word 4 modulus))

-- The status byte of an answer.
abbrev pub status : Bool → ℕ
status accepted = if accepted then 1 else 0

Writes-server_hello :
    (accepted : Bool) → Writes (write_server_hello accepted) (to_le_bytes 1 (status accepted)) tt
unfolding write_server_hello
Writes-server_hello accepted = Writes-write_word 1 (status accepted)

module _ (rest : List ℕ) (ending : Ending) where
  pub read_client_hello-hello :
      (version modulus : ℕ)
      → version < 2 ^ 16
      → modulus < 2 ^ 32
      → read_client_hello (record { bytes = hello version modulus ++ rest; ending = ending }) ≡ (
        ok (record { version = version; modulus = modulus }),
        record { bytes = rest; ending = ending },
      )
  unfolding read_client_hello same_bytes
  read_client_hello-hello version modulus hv hm = rw (
    read_exact-append rest ending (hello version modulus) rest hello_bytes size,
    take-append 2 (to_le_bytes 2 version) (to_le_bytes 4 modulus) (length-to_le_bytes 2 version),
    from-to_le_bytes 2 version hv,
    modulus_bytes,
    from-to_le_bytes 4 modulus hm,
  )
    where
      size : length (hello version modulus) ≡ hello_bytes
      size = omega (
        arith,
        length-append (to_le_bytes 2 version) (to_le_bytes 4 modulus),
        length-to_le_bytes 2 version,
        length-to_le_bytes 4 modulus,
      )

      modulus_bytes :
          take 4 (drop 2 (to_le_bytes 2 version ++ to_le_bytes 4 modulus)) ≡ to_le_bytes 4 modulus
      modulus_bytes =
          ap (take 4) (
            drop-append 2 (to_le_bytes 2 version) (to_le_bytes 4 modulus)
              (length-to_le_bytes 2 version))
          ∙ ap (take 4) (sym (append-nil (to_le_bytes 4 modulus)))
          ∙ take-append 4 (to_le_bytes 4 modulus) [] (length-to_le_bytes 4 modulus)

-- What the server decides about an offered version and modulus; the version is judged first.
abbrev pub verdict : ℕ → ℕ → Result HandshakeError (Unit {0})
verdict version modulus =
    if version == protocol_version
    then (if modulus == protocol_modulus then ok tt else err (unsupported_modulus modulus))
    else err (unsupported_version version)

abbrev pub accepts : ℕ → ℕ → Bool
accepts version modulus = (version == protocol_version) && (modulus == protocol_modulus)

-- For every offered version and modulus that fit their types, and a writer with room for a byte, the
-- server returns its verdict, has written the status byte of exactly that verdict, and leaves the bytes
-- behind the hello unread.
pub server_handshake_answers :
    (version modulus : ℕ) (rest : List ℕ) (ending : Ending) (sink : Sink)
    → version < 2 ^ 16
    → modulus < 2 ^ 32
    → 1 ≤ sink.room
    → server_handshake (record {
      input = record { bytes = hello version modulus ++ rest; ending = ending };
      output = sink;
    })
      ≡ (
        verdict version modulus,
        record {
          input = record { bytes = rest; ending = ending };
          output = extend sink (to_le_bytes 1 (status (accepts version modulus)));
        },
      )
unfolding server_handshake answer_hello
server_handshake_answers version modulus rest ending sink hv hm room =
    elim (Bool-cases (version == protocol_version)) [
      | inr foreign ↦ rw (
        read_client_hello-hello rest ending version modulus hv hm,
        foreign,
        Writes-server_hello false sink (fits false),
      )
      | inl same ↦ elim (Bool-cases (modulus == protocol_modulus)) [
        | inr other ↦ rw (
          read_client_hello-hello rest ending version modulus hv hm,
          same,
          other,
          Writes-server_hello false sink (fits false),
        )
        | inl equal ↦ rw (
          read_client_hello-hello rest ending version modulus hv hm,
          same,
          equal,
          Writes-server_hello true sink (fits true),
        )
      ]
    ]
  where
    fits : (accepted : Bool) → length (to_le_bytes 1 (status accepted)) ≤ sink.room
    fits accepted = omega (arith, length-to_le_bytes 1 (status accepted), room)

-- What the client makes of a status byte.
abbrev pub judged : ℕ → Result HandshakeError (Unit {0})
judged answer =
    if answer == 1
    then ok tt
    else if answer == 0
    then err rejected
    else err (codec (invalid_handshake_status answer))

-- With room for the ten bytes of its hello, the client writes the protocol's version and modulus; status
-- byte 1 is a success, 0 a rejection, and every other byte an error that names it.
pub client_handshake_judges :
    (answer : ℕ) (rest : List ℕ) (ending : Ending) (sink : Sink)
    → answer < 256
    → 10 ≤ sink.room
    → client_handshake (record {
      input = record { bytes = to_le_bytes 1 answer ++ rest; ending = ending };
      output = sink;
    })
      ≡ (
        judged answer,
        record {
          input = record { bytes = rest; ending = ending };
          output = extend sink (hello protocol_version protocol_modulus);
        },
      )
unfolding client_handshake read_server_hello handshake_status
client_handshake_judges answer rest ending sink byte room = elim (Bool-cases (answer == 1)) [
  | inl one ↦ rw (written, taken, from-to_le_bytes 1 answer byte, one)
  | inr other ↦ elim (Bool-cases (answer == 0)) [
    | inl none_ ↦ rw (written, taken, from-to_le_bytes 1 answer byte, other, none_)
    | inr unknown ↦ rw (written, taken, from-to_le_bytes 1 answer byte, other, unknown)
  ]
]
  where
    written :
        write_client_hello protocol_version protocol_modulus sink
        ≡ (ok tt, extend sink (hello protocol_version protocol_modulus))
    written = Writes-client_hello protocol_version protocol_modulus sink (
        omega (
          arith,
          length-append (to_le_bytes 2 protocol_version) (to_le_bytes 4 protocol_modulus),
          length-to_le_bytes 2 protocol_version,
          length-to_le_bytes 4 protocol_modulus,
          room,
        ))

    taken :
        read_exact 1 (record { bytes = to_le_bytes 1 answer ++ rest; ending = ending })
        ≡ (ok (to_le_bytes 1 answer), record { bytes = rest; ending = ending })
    taken =
        read_exact-append rest ending (to_le_bytes 1 answer) rest 1 (length-to_le_bytes 1 answer)
